-- ===== src/Muxer/Class.antt =====
-- The class of the element: what `sptsmuxer_base_init` and `sptsmuxer_class_init` give it, and the
-- registration of the plugin. The classes of GObject and GStreamer are the records that they fill.
use sptsmuxer.Base.{ℕ, ◌-◌, ◌^◌, List, [], ◌∷◌, ◌++◌, Bool}
use sptsmuxer.Muxer.{
  Property, prop_muxrate, pushbuf_size, Template, video_pad, audio_pad, unknown_pad,
}

-- GParamSpec of an unsigned number.
pub record ParamSpec : Type 0 where
  pub property : Property
  pub minimum : ℕ
  pub maximum : ℕ
  pub default : ℕ

-- The two properties, readable and writable. G_MAXULONG, of 64 bits, and G_MAXUINT.
abbrev pub class_properties : List ParamSpec
class_properties =
    record { property = prop_muxrate; minimum = 0; maximum = 2 ^ 64 - 1; default = 0 }
    ∷ record { property = pushbuf_size; minimum = 0; maximum = 2 ^ 32 - 1; default = 7 }
    ∷ []

pub data PadDirection : Type 0 where
  pad_src : PadDirection
  pad_sink : PadDirection

pub data PadPresence : Type 0 where
  pad_always : PadPresence
  pad_request : PadPresence

-- "src", "video_%d" and "audio_%d"
pub data PadName : Type 0 where
  src_name : PadName
  video_name : PadName
  audio_name : PadName

-- The caps of the templates: of MPEG audio the versions, of a transport stream the packet sizes.
pub data TemplateCaps : Type 0 where
  h264_caps : TemplateCaps
  mpeg_caps : List ℕ → TemplateCaps
  mpegts_caps : List ℕ → TemplateCaps

pub record PadTemplate : Type 0 where
  pub name : PadName
  pub direction : PadDirection
  pub presence : PadPresence
  pub caps : TemplateCaps

abbrev pub video_sink_factory : PadTemplate
video_sink_factory = record {
  name = video_name;
  direction = pad_sink;
  presence = pad_request;
  caps = h264_caps;
}

abbrev pub audio_sink_factory : PadTemplate
audio_sink_factory = record {
  name = audio_name;
  direction = pad_sink;
  presence = pad_request;
  caps = mpeg_caps (1 ∷ 2 ∷ 4 ∷ []);
}

abbrev pub src_factory : PadTemplate
src_factory = record {
  name = src_name;
  direction = pad_src;
  presence = pad_always;
  caps = mpegts_caps (188 ∷ []);
}

-- The methods that the class sets.
pub data Method : Type 0 where
  set_property : Method
  get_property : Method
  request_new_pad : Method
  change_state : Method

pub record SpTsMuxerClass : Type 0 where
  pub templates : List PadTemplate
  pub methods : List Method
  pub properties : List ParamSpec

-- The details of the element are text only.
unfoldable pub sptsmuxer_base_init : SpTsMuxerClass → SpTsMuxerClass
sptsmuxer_base_init class = record class {
  templates = class.templates ++ (src_factory ∷ video_sink_factory ∷ audio_sink_factory ∷ []);
}

unfoldable pub sptsmuxer_class_init : SpTsMuxerClass → SpTsMuxerClass
sptsmuxer_class_init class = record class {
  methods = class.methods ++ (set_property ∷ get_property ∷ request_new_pad ∷ change_state ∷ []);
  properties = class.properties ++ class_properties;
}

-- Which template a request is for: `templ == gst_element_class_get_pad_template (klass, …)`.
unfoldable pub requested_template : PadName → Template
requested_template src_name = unknown_pad
requested_template video_name = video_pad
requested_template audio_name = audio_pad

-- `gst_element_register` says whether the element is registered.
unfoldable pub plugin_init : Bool → Bool
plugin_init gst_element_register = gst_element_register
