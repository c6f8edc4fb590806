-- ===== src/Muxer/Queue.antt =====
-- The queues of the pads as they are emptied from their heads, the earliest frame first.
use sptsmuxer.Base.{
  ℕ, zero, suc, ◌+◌, ◌≤◌, ◌<◌, ◌≡◌, ◌≢◌, refl, arith, List, [], ◌∷◌, some, All, length, get_elem?,
}
use sptsmuxer.Spts.State.{Buffer}
use sptsmuxer.Muxer.{peek_times, pop, gst_clock_time_none}
use sptsmuxer.Muxer.Choice.{NoneEarlier, AllTimed}

-- A frame is at the head of one of the queues, and is taken from it.
pub data Pops : List (List Buffer) → Buffer → List (List Buffer) → Type 0 where
  here :
      {buffer : Buffer} {buffers : List Buffer} {pads : List (List Buffer)}
      → Pops ((buffer ∷ buffers) ∷ pads) buffer (buffers ∷ pads)
  there :
      {buffer : Buffer} {pad : List Buffer} {pads rest : List (List Buffer)}
      → Pops pads buffer rest
      → Pops (pad ∷ pads) buffer (pad ∷ rest)

-- The next frame of a queue, if there is one, is not before `time`.
abbrev pub IsFrom : ℕ → List Buffer → Type 0
IsFrom time [] = Unit
IsFrom time (buffer ∷ buffers) = time ≤ buffer.timestamp

-- These frames are taken one after the other, each the earliest of those at the heads.
pub data Merged : List (List Buffer) → List Buffer → List (List Buffer) → Type 0 where
  done : {pads : List (List Buffer)} → Merged pads [] pads
  taken :
      {buffer : Buffer} {buffers : List Buffer} {pads rest out : List (List Buffer)}
      → Pops pads buffer rest
      → All (IsFrom buffer.timestamp) pads
      → Merged rest buffers out
      → Merged pads (buffer ∷ buffers) out

-- How many frames wait.
abbrev pub waiting : List (List Buffer) → ℕ
waiting [] = 0
waiting (pad ∷ pads) = length pad + waiting pads

pub Pops-waiting :
    {pads rest : List (List Buffer)} {buffer : Buffer}
    → Pops pads buffer rest
    → waiting pads ≡ suc (waiting rest)
Pops-waiting here = omega arith
Pops-waiting (there p) = omega (arith, Pops-waiting p)

-- What holds of the waiting frames holds of the one that is taken, and of the others.
pub Pops-All :
    (P : Buffer → Type 0) {pads rest : List (List Buffer)} {buffer : Buffer}
    → Pops pads buffer rest
    → All (All P) pads
    → P buffer × All (All P) rest
Pops-All P here all = (all.0.0, (all.0.1, all.1))
Pops-All P (there p) all = let tail = Pops-All P p all.1 in (tail.0, (all.0, tail.1))

-- The frame that `pop` takes from the pad of an entry of `peek_times`.
pub record Popped (pads : List (List Buffer)) (k time : ℕ) : Type 0 where
  pub buffer : Buffer
  pub rest : List (List Buffer)
  pub returns : pop k pads ≡ some (buffer, rest)
  pub its_time : buffer.timestamp ≡ time
  pub pops : Pops pads buffer rest

pub pop-Popped :
    (pads : List (List Buffer)) (k time : ℕ)
    → get_elem? (peek_times pads) k ≡ some (some time)
    → Popped pads k time
unfolding peek_times pop
pop-Popped [] zero time at = absurd cc
pop-Popped [] (suc k) time at = absurd cc
pop-Popped ([] ∷ pads) zero time at = absurd cc
pop-Popped ((buffer ∷ buffers) ∷ pads) zero time at = record {
  buffer = buffer;
  rest = buffers ∷ pads;
  returns = refl;
  its_time = cc;
  pops = here;
}
pop-Popped ([] ∷ pads) (suc k) time at =
    let p = pop-Popped pads k time at in
    record {
      buffer = p.buffer;
      rest = [] ∷ p.rest;
      returns = rw p.returns refl;
      its_time = p.its_time;
      pops = there p.pops;
    }
pop-Popped ((buffer ∷ buffers) ∷ pads) (suc k) time at =
    let p = pop-Popped pads k time at in
    record {
      buffer = p.buffer;
      rest = (buffer ∷ buffers) ∷ p.rest;
      returns = rw p.returns refl;
      its_time = p.its_time;
      pops = there p.pops;
    }

pub NoneEarlier-IsFrom :
    (pads : List (List Buffer)) (time : ℕ)
    → NoneEarlier time (peek_times pads)
    → All (IsFrom time) pads
unfolding peek_times
NoneEarlier-IsFrom [] time least = tt
NoneEarlier-IsFrom ([] ∷ pads) time least = (tt, NoneEarlier-IsFrom pads time (λ k. least (suc k)))
NoneEarlier-IsFrom ((buffer ∷ buffers) ∷ pads) time least =
    (least 0 buffer.timestamp refl, NoneEarlier-IsFrom pads time (λ k. least (suc k)))

-- Every waiting frame has a time stamp.
abbrev pub IsTimed : Buffer → Type 0
IsTimed buffer = buffer.timestamp < gst_clock_time_none

pub peek_times-AllTimed :
    (pads : List (List Buffer)) → All (All IsTimed) pads → AllTimed (peek_times pads)
unfolding peek_times
peek_times-AllTimed [] all zero e = cc
peek_times-AllTimed [] all (suc k) e = cc
peek_times-AllTimed ([] ∷ pads) all zero e = cc
peek_times-AllTimed ((buffer ∷ buffers) ∷ pads) all zero e =
    let same : buffer.timestamp ≡ gst_clock_time_none = cc in omega (arith, all.0.0, same)
peek_times-AllTimed ([] ∷ pads) all (suc k) e = peek_times-AllTimed pads all.1 k e
peek_times-AllTimed ((buffer ∷ buffers) ∷ pads) all (suc k) e = peek_times-AllTimed pads all.1 k e

-- Where no pad has a frame at its head, none waits.
pub none-waiting :
    (pads : List (List Buffer))
    → ((k time : ℕ) → get_elem? (peek_times pads) k ≢ some (some time))
    → waiting pads ≡ 0
unfolding peek_times
none-waiting [] empty = refl
none-waiting ([] ∷ pads) empty = omega (arith, none-waiting pads (λ k. empty (suc k)))
none-waiting ((buffer ∷ buffers) ∷ pads) empty = absurd (empty 0 buffer.timestamp refl)

-- The frames of a list in the order of their time stamps.
abbrev pub IsSorted : List Buffer → Type 0
IsSorted [] = Unit
IsSorted (buffer ∷ buffers) = IsFrom buffer.timestamp buffers × IsSorted buffers

Pops-IsFrom :
    {pads rest : List (List Buffer)} {buffer : Buffer} {time : ℕ}
    → Pops pads buffer rest
    → All (IsFrom time) pads
    → time ≤ buffer.timestamp
Pops-IsFrom here all = all.0
Pops-IsFrom (there p) all = Pops-IsFrom p all.1

-- The heads that are left are not before a frame that was the earliest.
Pops-IsSorted :
    {pads rest : List (List Buffer)} {buffer : Buffer}
    → Pops pads buffer rest
    → All (IsFrom buffer.timestamp) pads
    → All IsSorted pads
    → All (IsFrom buffer.timestamp) rest × All IsSorted rest
Pops-IsSorted here from sorted = ((sorted.0.0, from.1), (sorted.0.1, sorted.1))
Pops-IsSorted (there p) from sorted =
    let tail = Pops-IsSorted p from.1 sorted.1 in ((from.0, tail.0), (sorted.0, tail.1))

Merged-IsFrom :
    {pads out : List (List Buffer)} {buffers : List Buffer} (time : ℕ)
    → Merged pads buffers out
    → All (IsFrom time) pads
    → IsFrom time buffers
Merged-IsFrom time done from = tt
Merged-IsFrom time (taken p earliest m) from = Pops-IsFrom p from

-- x
pub Merged-IsSorted :
    {pads out : List (List Buffer)} {buffers : List Buffer}
    → Merged pads buffers out
    → All IsSorted pads
    → IsSorted buffers
Merged-IsSorted done sorted = tt
Merged-IsSorted (taken {buffer = buffer} p earliest m) sorted =
    let left = Pops-IsSorted p earliest sorted in
    (Merged-IsFrom buffer.timestamp m left.0, Merged-IsSorted m left.1)
