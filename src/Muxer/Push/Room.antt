-- ===== src/Muxer/Push/Room.antt =====
-- The bytes of the packets in the push buffer, and a store behind them.
use sptsmuxer.Base.{
  append_assoc, take-append, ℕ, ◌+◌, ◌*◌, ◌^◌, ◌≤◌, ◌<◌, ◌≡◌, refl, sym, ◌∙◌, ap, arith, List, [],
  ◌∷◌, ◌++◌, some, Bytes, ok, length, length-append, length-take, length-drop, take, drop, store,
  splice, le→leb,
}
use sptsmuxer.Muxer.{MuxerState}

-- A packet as spts.c writes it.
abbrev pub IsPacket : Bytes → Type 0
IsPacket packet = length packet ≡ 188

-- The callback does not touch the rest of the element.
abbrev pub SameProgram : MuxerState → MuxerState → Type 0
SameProgram muxer out =
    (out.spts ≡ muxer.spts) × (out.collect ≡ muxer.collect) × (out.first ≡ muxer.first)

-- A state with the push buffer set.
abbrev pub with_buffer : MuxerState → ℕ → ℕ → Bytes → MuxerState
with_buffer muxer size used buffer = record muxer {
  pushbufsize = size;
  pushbufused = used;
  pushbuf = some buffer;
}

-- The bytes of some packets, one after the other.
abbrev pub joined : List Bytes → Bytes
joined [] = []
joined (packet ∷ packets) = packet ++ joined packets

pub joined-append : (xs ys : List Bytes) → joined (xs ++ ys) ≡ joined xs ++ joined ys
joined-append [] ys = refl
joined-append (x ∷ xs) ys =
    ap (λ l. x ++ l) (joined-append xs ys) ∙ sym (append_assoc x (joined xs) (joined ys))

-- The push buffer is there, with place for one more packet. The packets that are held in it are
-- those since it was pushed last, and their bytes stand at its beginning.
pub record HasRoom (muxer : MuxerState) (size used : ℕ) : Type 0 where
  pub base : MuxerState
  pub buffer : Bytes
  pub held : List Bytes
  pub held_count : length held ≡ used
  pub held_bytes : take (used * 188) buffer ≡ joined held
  pub at : muxer ≡ with_buffer base size used buffer
  pub whole : length buffer ≡ size * 188
  pub room : used < size
  pub size_bits : size * 188 < 2 ^ 32

pub length-splice :
    (dst src : Bytes) (off : ℕ)
    → off + length src ≤ length dst
    → length (splice dst off src) ≡ length dst
length-splice dst src off h =
    rw
      (
        length-append (take off dst) (src ++ drop (off + length src) dst),
        length-append src (drop (off + length src) dst),
        length-take off dst,
        length-drop (off + length src) dst,
      )
      (omega arith)

-- The store of a packet behind the bytes that are there.
pub take-splice :
    (dst src : Bytes) (off : ℕ)
    → off + length src ≤ length dst
    → take (off + length src) (splice dst off src) ≡ take off dst ++ src
take-splice dst src off h =
    let start : length (take off dst) ≡ off = rw (length-take off dst) (omega arith) in
    ap (take (off + length src))
      (sym (append_assoc (take off dst) src (drop (off + length src) dst)))
    ∙ take-append (off + length src) (take off dst ++ src) (drop (off + length src) dst)
        (rw (length-append (take off dst) src) (omega (arith, start)))

pub store_within :
    (dst src : Bytes) (off : ℕ)
    → off + length src ≤ length dst
    → store dst off src ≡ ok (splice dst off src)
unfolding store
store_within dst src off h = rw (le→leb (off + length src) (length dst) h) refl
