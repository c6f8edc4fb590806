-- ===== src/Muxer/Names.antt =====
-- The names of the requested pads, which `gst_element_add_pad` wants to be different.
use sptsmuxer.Base.{
  ℕ, suc, ◌+◌, ◌^◌, ◌≤◌, ◌<◌, ◌≡◌, ◌≢◌, refl, ap, arith, List, [], ◌∷◌, true, Option, some, none,
  Result, ok, ◌>>=◌, bind-returns, All, length, map, u32,
}
use mathlib.Core.Path.{sym, ◌∙◌, subst}
use sptsmuxer.Base.Holds.{Holds, Holds-ok, Holds-bind, Holds-any, Holds-result}
use sptsmuxer.Psi.{psi_pmt_section_stream_add, stream_type_video_h264, stream_type_audio_aac}
use sptsmuxer.Spts.State.{video_pid, audio_pid, on_pmt_section}
use sptsmuxer.Spts.Setup.{spts_add_stream}
use sptsmuxer.Muxer.{
  MuxerState, Template, video_pad, audio_pad, unknown_pad, sptsmuxer_init, request_stream,
  request_pad, sptsmuxer_request_new_pad,
}
use sptsmuxer.Muxer.Setup.{request_pads}
use sptsmuxer.Muxer.Started.{new_element, init_lem, sized-Requested}

-- "video_%d" or "audio_%d" with the number of pads of that kind so far; NULL for another template.
unfoldable pub pad_name : MuxerState → Template → Option (Template × ℕ)
pad_name muxer video_pad = some (video_pad, muxer.numvideosinkpads)
pad_name muxer audio_pad = some (audio_pad, muxer.numaudiosinkpads)
pad_name muxer unknown_pad = none

-- The names that the requests give to their pads.
unfoldable pub request_names : MuxerState → List Template → Result (List (Option (Template × ℕ)))
request_names muxer [] = ok []
request_names muxer (templ ∷ templates) = do
  (next, _) ← sptsmuxer_request_new_pad true true muxer templ
  names ← request_names next templates
  ok (pad_name muxer templ ∷ names)

-- No two of a list are the same.
abbrev pub Distinct {ℓ} : {A : Type ℓ} → List A → Type ℓ
Distinct [] = Unit
Distinct (x ∷ xs) = All (λ y. y ≢ x) xs × Distinct xs

-- The names, from the numbers of the two kinds on.
numbered : ℕ → ℕ → List Template → List (Option (Template × ℕ))
numbered v a [] = []
numbered v a (video_pad ∷ templates) = some (video_pad, v) ∷ numbered (v + 1) a templates
numbered v a (audio_pad ∷ templates) = some (audio_pad, a) ∷ numbered v (a + 1) templates
numbered v a (unknown_pad ∷ templates) = none ∷ numbered v a templates

numbered-no_video :
    (k v a : ℕ) (templates : List Template)
    → k < v
    → All (λ n. n ≢ some (video_pad, k)) (numbered v a templates)
unfolding numbered
numbered-no_video k v a [] h = tt
numbered-no_video k v a (video_pad ∷ templates) h =
    (ground arith, numbered-no_video k (v + 1) a templates (omega (arith, h)))
numbered-no_video k v a (audio_pad ∷ templates) h =
    (ground arith, numbered-no_video k v (a + 1) templates h)
numbered-no_video k v a (unknown_pad ∷ templates) h =
    (ground arith, numbered-no_video k v a templates h)

numbered-no_audio :
    (k v a : ℕ) (templates : List Template)
    → k < a
    → All (λ n. n ≢ some (audio_pad, k)) (numbered v a templates)
unfolding numbered
numbered-no_audio k v a [] h = tt
numbered-no_audio k v a (video_pad ∷ templates) h =
    (ground arith, numbered-no_audio k (v + 1) a templates h)
numbered-no_audio k v a (audio_pad ∷ templates) h =
    (ground arith, numbered-no_audio k v (a + 1) templates (omega (arith, h)))
numbered-no_audio k v a (unknown_pad ∷ templates) h =
    (ground arith, numbered-no_audio k v a templates h)

numbered-Distinct :
    (v a : ℕ) (templates : List Template)
    → All (λ t. t ≢ unknown_pad) templates
    → Distinct (numbered v a templates)
unfolding numbered
numbered-Distinct v a [] known = tt
numbered-Distinct v a (video_pad ∷ templates) known = (
  numbered-no_video v (v + 1) a templates (omega arith),
  numbered-Distinct (v + 1) a templates known.1,
)
numbered-Distinct v a (audio_pad ∷ templates) known = (
  numbered-no_audio a v (a + 1) templates (omega arith),
  numbered-Distinct v (a + 1) templates known.1,
)
numbered-Distinct v a (unknown_pad ∷ templates) known = absurd (known.0 refl)

-- Each name that is there, and its template.
record AllNamed (templates : List Template) (names : List (Option (Template × ℕ))) : Type 0 where
  named : List (Template × ℕ)
  there : names ≡ map some named
  of_template : map (λ n. n.0) named ≡ templates

numbered-AllNamed :
    (v a : ℕ) (templates : List Template)
    → All (λ t. t ≢ unknown_pad) templates
    → AllNamed templates (numbered v a templates)
unfolding numbered
numbered-AllNamed v a [] known = record { named = []; there = refl; of_template = refl }
numbered-AllNamed v a (video_pad ∷ templates) known =
    let r = numbered-AllNamed (v + 1) a templates known.1 in
    record {
      named = (video_pad, v) ∷ r.named;
      there = ap (λ l. some (video_pad, v) ∷ l) r.there;
      of_template = ap (λ l. video_pad ∷ l) r.of_template;
    }
numbered-AllNamed v a (audio_pad ∷ templates) known =
    let r = numbered-AllNamed v (a + 1) templates known.1 in
    record {
      named = (audio_pad, a) ∷ r.named;
      there = ap (λ l. some (audio_pad, a) ∷ l) r.there;
      of_template = ap (λ l. audio_pad ∷ l) r.of_template;
    }
numbered-AllNamed v a (unknown_pad ∷ templates) known = absurd (known.0 refl)

-- The two counters of the element.
abbrev pads_of : MuxerState → ℕ × ℕ
pads_of muxer = (muxer.numvideosinkpads, muxer.numaudiosinkpads)

abbrev one_more : Template → ℕ × ℕ → ℕ × ℕ
one_more video_pad (v, a) = (u32 (v + 1), a)
one_more audio_pad (v, a) = (v, u32 (a + 1))
one_more unknown_pad (v, a) = (v, a)

request_stream-Holds :
    (muxer : MuxerState) (templ : Template)
    → Holds (λ next. pads_of next ≡ one_more templ (pads_of muxer)) (request_stream muxer templ)
unfolding request_stream
request_stream-Holds muxer video_pad =
    Holds-bind (Holds-any (spts_add_stream muxer.spts stream_type_video_h264 video_pid)) (λ spts _.
      Holds-bind
        (Holds-any (
          on_pmt_section spts
            (λ section. psi_pmt_section_stream_add section stream_type_video_h264 video_pid)))
        (λ written _. Holds-ok refl))
request_stream-Holds muxer audio_pad =
    Holds-bind (Holds-any (spts_add_stream muxer.spts stream_type_audio_aac audio_pid)) (λ spts _.
      Holds-bind
        (Holds-any (
          on_pmt_section spts
            (λ section. psi_pmt_section_stream_add section stream_type_audio_aac audio_pid)))
        (λ written _. Holds-ok refl))
request_stream-Holds muxer unknown_pad = Holds-ok refl

new_pad-Holds :
    (muxer : MuxerState) (templ : Template)
    → Holds
        (λ r. pads_of r.0 ≡ one_more templ (pads_of muxer))
        (sptsmuxer_request_new_pad true true muxer templ)
unfolding sptsmuxer_request_new_pad request_pad
new_pad-Holds muxer templ = Holds-bind (request_stream-Holds muxer templ) (λ next h. Holds-ok h)

abbrev FitsWord : ℕ × ℕ → ℕ → Type 0
FitsWord (v, a) n = (v + n < 2 ^ 32) × (a + n < 2 ^ 32)

pads_left :
    (v a n : ℕ) (templ : Template) → FitsWord (v, a) (suc n) → FitsWord (one_more templ (v, a)) n
pads_left v a n video_pad h = (omega (arith, h), omega (arith, h))
pads_left v a n audio_pad h = (omega (arith, h), omega (arith, h))
pads_left v a n unknown_pad h = (omega (arith, h), omega (arith, h))

numbered_pads : ℕ × ℕ → List Template → List (Option (Template × ℕ))
numbered_pads (v, a) templates = numbered v a templates

pad_name-numbered :
    (muxer : MuxerState) (templ : Template) (templates : List Template)
    → FitsWord (pads_of muxer) (suc (length templates))
    → pad_name muxer templ ∷ numbered_pads (one_more templ (pads_of muxer)) templates
      ≡ numbered_pads (pads_of muxer) (templ ∷ templates)
unfolding pad_name numbered_pads numbered
pad_name-numbered muxer video_pad templates h =
    ap (λ v. some (video_pad, muxer.numvideosinkpads) ∷ numbered v muxer.numaudiosinkpads templates)
      (omega (arith, h))
pad_name-numbered muxer audio_pad templates h =
    ap (λ a. some (audio_pad, muxer.numaudiosinkpads) ∷ numbered muxer.numvideosinkpads a templates)
      (omega (arith, h))
pad_name-numbered muxer unknown_pad templates h = refl

-- Requests that return have numbered their pads.
request_names-numbered :
    (muxer : MuxerState) (templates : List Template) {out : MuxerState}
    → request_pads muxer templates ≡ ok out
    → FitsWord (pads_of muxer) (length templates)
    → request_names muxer templates ≡ ok (numbered_pads (pads_of muxer) templates)
unfolding request_pads request_names numbered numbered_pads
request_names-numbered muxer [] returns h = refl
request_names-numbered muxer (templ ∷ templates) returns h =
    let (one, first, rest) =
      bind-returns (sptsmuxer_request_new_pad true true muxer templ)
        (λ r. request_pads r.0 templates) returns in
    let counts = Holds-result (new_pad-Holds muxer templ) first in
    let later = request_names-numbered one.0 templates rest (
      subst (λ c. FitsWord c (length templates)) (sym counts)
        (pads_left muxer.numvideosinkpads muxer.numaudiosinkpads (length templates) templ h)) in
    rw (first, later)
      (ap (λ c. ok (pad_name muxer templ ∷ numbered_pads c templates)) counts
        ∙ ap ok (pad_name-numbered muxer templ templates h))

-- For at most 33 requests of known templates, in any order, on a new element: the requests return,
-- none of the names is NULL, each has the prefix of its template, and no two of them are the same,
-- as gst_element_add_pad wants it.
pub request_names-Distinct :
    (templates : List Template)
    → All (λ t. t ≢ unknown_pad) templates
    → length templates ≤ 33
    → (names : List (Template × ℕ)) × ((sptsmuxer_init none >>= λ new. request_names new templates)
        ≡ ok (map some names))
      × (map (λ n. n.0) names ≡ templates)
      × Distinct (map some names)
unfolding numbered_pads
request_names-Distinct templates known few =
    let r = sized-Requested templates known few 0 in
    let n = numbered-AllNamed 0 0 templates known in
    (
      n.named,
      rw init_lem (
          request_names-numbered new_element templates r.returns
            (omega (arith, few), omega (arith, few))
          ∙ ap ok n.there),
      n.of_template,
      subst Distinct n.there (numbered-Distinct 0 0 templates known),
    )
