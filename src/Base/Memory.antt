-- ===== src/Base/Memory.antt =====
-- Arrays of bytes. A pointer is an array and an offset; an access past the end is a fault.
use mathlib.Core.Path.{refl, ◌≡◌}
use mathlib.Core.List.{append-nil, List, ◌++◌}
use mathlib.Core.Option.{none, some}
use Prim.Native.Nat.{ℕ, ◌+◌, ◌≤◌}
use native.Mathlib.Omega.{arith}
use sptsmuxer.Base.Test.{leb, le→leb, if◌then◌else◌}
use sptsmuxer.Base.Fault.{Result, ok, fault, out_of_bounds, ◌>>=◌}
use sptsmuxer.Base.Lists.{
  drop_all, length, take, drop, take-append, drop-append, length-append, replicate, get_elem?, set,
}

abbrev pub Bytes : Type 0
Bytes = List ℕ

-- `dst` with the bytes `src` at the offset `off`.
abbrev pub splice : Bytes → ℕ → Bytes → Bytes
splice dst off src = take off dst ++ (src ++ drop (off + length src) dst)

-- memcpy (dst + off, src, length src); also a run of `*buf++ = …` that starts at `dst + off`.
unfoldable pub store : Bytes → ℕ → Bytes → Result Bytes
store dst off src =
    if leb (off + length src) (length dst) then ok (splice dst off src) else fault out_of_bounds

-- The n bytes at `src + off`.
unfoldable pub load : Bytes → ℕ → ℕ → Result Bytes
load src off n =
    if leb (off + n) (length src) then ok (take n (drop off src)) else fault out_of_bounds

-- A call that is given the interior pointer `buf + off`: it sees the bytes from there on.
abbrev pub from_offset : ℕ → (Bytes → Result Bytes) → Bytes → Result Bytes
from_offset off f buf = do rest ← f (drop off buf); ok (take off buf ++ rest)

-- A store behind a prefix of length `off`.
pub store-append :
    (a rest src : Bytes) (off : ℕ)
    → off ≡ length a
    → length src ≤ length rest
    → store (a ++ rest) off src ≡ ok (a ++ (src ++ drop (length src) rest))
unfolding store
store-append a rest src off e h = rw (
  le→leb (off + length src) (length (a ++ rest)) (omega (arith, length-append a rest)),
  take-append off a rest e,
  drop-append (off + length src) (length src) a rest (omega arith),
)

-- A store that fills the array to its end.
pub store_end :
    (a rest src : Bytes) (off : ℕ)
    → off ≡ length a
    → length src ≡ length rest
    → store (a ++ rest) off src ≡ ok (a ++ src)
store_end a rest src off e h =
    rw
      (
        store-append a rest src off e (omega arith),
        drop_all (length src) rest (omega arith),
        append-nil src,
      )
      refl

pub load_lem :
    (src : Bytes) (off n : ℕ) → off + n ≤ length src → load src off n ≡ ok (take n (drop off src))
unfolding load
load_lem src off n h = rw (le→leb (off + n) (length src) h)

-- memset (dst + off, value, n).
unfoldable pub memset : Bytes → ℕ → ℕ → ℕ → Result Bytes
memset dst off value n = store dst off (replicate n value)

-- A read and a write of the byte at `buf + i`.
unfoldable pub modify : Bytes → ℕ → (ℕ → ℕ) → Result Bytes
modify buf i f = elim (get_elem? buf i) [
  | none ↦ fault out_of_bounds
  | some b ↦ ok (set buf i (f b))
]
