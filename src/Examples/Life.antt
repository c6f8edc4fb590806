-- ===== src/Examples/Life.antt =====
-- The class of the element and the changes of its state, on instances.
use sptsmuxer.Base.{
  none, ℕ, ◌>>=◌, ok, arith, ◌≡◌, refl, List, [], ◌∷◌, true, false, some, Bool, map,
}
use sptsmuxer.Muxer.{
  Template, sptsmuxer_init, video_pad, audio_pad, unknown_pad, sptsmuxer_get_property,
}
use sptsmuxer.Muxer.Life.{
  Transition, null_to_ready, ready_to_paused, paused_to_ready, sptsmuxer_change_state, stay,
  succeeds, fails, after_calls, calls_of, change_state-collects,
}
use sptsmuxer.Muxer.Started.{new_element}
use sptsmuxer.Muxer.Names.{request_names, Distinct, request_names-Distinct}
use sptsmuxer.Muxer.Class.{
  SpTsMuxerClass, sptsmuxer_base_init, sptsmuxer_class_init, requested_template,
}

-- To PAUSED at the second try of NULL to READY, and back.
abbrev up_and_down : List (Transition × Bool)
up_and_down =
    (null_to_ready, false)
    ∷ (null_to_ready, true)
    ∷ (ready_to_paused, true)
    ∷ (paused_to_ready, true)
    ∷ []

change_state-collects_example : after_calls false (calls_of up_and_down) ≡ some false
change_state-collects_example =
    change_state-collects up_and_down
      (fails null_to_ready refl (
        succeeds null_to_ready refl
          (succeeds ready_to_paused refl (succeeds paused_to_ready refl stay))))
      ((λ e. refl), ((λ e. cc), ((λ e. cc), ((λ e. cc), tt))))

-- Where the parent class fails at READY to PAUSED, the next try starts what runs already.
started_twice :
    after_calls false (calls_of ((ready_to_paused, false) ∷ (ready_to_paused, true) ∷ [])) ≡ none
unfolding sptsmuxer_change_state
started_twice = refl

-- The class as the two functions fill it.
abbrev class : SpTsMuxerClass
class =
    sptsmuxer_class_init
      (sptsmuxer_base_init (record { templates = []; methods = []; properties = [] }))

-- A pad can be requested of the two sink templates and not of the other.
class_requests :
    map (λ t. requested_template t.name) class.templates ≡ unknown_pad ∷ video_pad ∷ audio_pad ∷ []
unfolding sptsmuxer_class_init sptsmuxer_base_init requested_template
class_requests = refl

-- The value of each property in a new element: the declared default of the second is 7.
class_defaults :
    map (λ p. sptsmuxer_get_property new_element p.property) class.properties ≡ some 0 ∷ some 0 ∷ []
unfolding sptsmuxer_class_init sptsmuxer_base_init sptsmuxer_get_property
class_defaults = refl

-- Two pads of video and one of audio.
request_names-Distinct_example :
    (names : List (Template × ℕ)) × ((sptsmuxer_init none >>= λ new.
    request_names new (video_pad ∷ audio_pad ∷ video_pad ∷ []))
      ≡ ok (map some names))
    × (map (λ n. n.0) names ≡ video_pad ∷ audio_pad ∷ video_pad ∷ [])
    × Distinct (map some names)
request_names-Distinct_example =
    request_names-Distinct (video_pad ∷ audio_pad ∷ video_pad ∷ [])
      ((λ e. cc), ((λ e. cc), ((λ e. cc), tt))) (omega arith)
