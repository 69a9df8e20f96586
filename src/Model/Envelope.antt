-- ===== src/Model/Envelope.antt =====
-- `TimeEnvelope` of src/o3ds/model.h, and how `createRoot` writes it and `SubjectList::parse` reads
-- it (src/o3ds/model.cpp). The numbers of an envelope are within the widths of their fields, which
-- are the same in the class and in the schema.
use open3dstream.Base.{ℕ, Bool, false, not, ◌==◌, if◌then◌else◌, ◌≡◌, refl, inl, inr, Bool-cases}
use open3dstream.Base.Int.{ℤ, pos}

pub record TimeEnvelope : Type 0 where
  pub version : ℕ
  pub clock_domain : ℕ
  pub clock_instance : ℕ
  pub ns : ℕ
  pub quality : ℕ
  pub source : ℕ
  pub restamp_reason : ℕ
  pub has_device_time : Bool
  pub device_instance : ℕ
  pub device_ns : ℕ
  pub has_timecode : Bool
  pub timecode_kind : ℕ
  pub timecode_instance : ℕ
  pub timecode_ns : ℕ
  pub has_smpte : Bool
  pub hours : ℕ
  pub minutes : ℕ
  pub seconds : ℕ
  pub frames : ℕ
  pub subframe : ℕ
  pub subframes : ℕ
  pub rate_code : ℕ
  pub drop_frame : Bool
  pub rate_num : ℤ
  pub rate_den : ℤ

-- The end of `table SubjectList` in src/o3ds.fbs.
pub record WireTime : Type 0 where
  pub time_version : ℕ
  pub clock_domain : ℕ
  pub clock_instance : ℕ
  pub time_ns : ℕ
  pub time_quality : ℕ
  pub time_source : ℕ
  pub restamp_reason : ℕ
  pub has_device_time : Bool
  pub device_instance : ℕ
  pub device_ns : ℕ
  pub has_timecode : Bool
  pub timecode_kind : ℕ
  pub timecode_instance : ℕ
  pub timecode_ns : ℕ
  pub has_smpte : Bool
  pub tc_hours : ℕ
  pub tc_minutes : ℕ
  pub tc_seconds : ℕ
  pub tc_frames : ℕ
  pub tc_subframe : ℕ
  pub tc_subframes : ℕ
  pub rate_code : ℕ
  pub drop_frame : Bool
  pub rate_num : ℤ
  pub rate_den : ℤ

-- The envelope of the constructor.
unfoldable pub no_envelope : TimeEnvelope
no_envelope = record {
  version = 0;
  clock_domain = 0;
  clock_instance = 0;
  ns = 0;
  quality = 2;
  source = 0;
  restamp_reason = 0;
  has_device_time = false;
  device_instance = 0;
  device_ns = 0;
  has_timecode = false;
  timecode_kind = 0;
  timecode_instance = 0;
  timecode_ns = 0;
  has_smpte = false;
  hours = 0;
  minutes = 0;
  seconds = 0;
  frames = 0;
  subframe = 0;
  subframes = 0;
  rate_code = 0;
  drop_frame = false;
  rate_num = pos 0;
  rate_den = pos 0;
}

-- What a table reads as when nothing of this was added to it.
unfoldable pub no_time : WireTime
no_time = record {
  time_version = 0;
  clock_domain = 0;
  clock_instance = 0;
  time_ns = 0;
  time_quality = 0;
  time_source = 0;
  restamp_reason = 0;
  has_device_time = false;
  device_instance = 0;
  device_ns = 0;
  has_timecode = false;
  timecode_kind = 0;
  timecode_instance = 0;
  timecode_ns = 0;
  has_smpte = false;
  tc_hours = 0;
  tc_minutes = 0;
  tc_seconds = 0;
  tc_frames = 0;
  tc_subframe = 0;
  tc_subframes = 0;
  rate_code = 0;
  drop_frame = false;
  rate_num = pos 0;
  rate_den = pos 0;
}

-- `TimeEnvelope::valid`.
unfoldable pub is_valid : TimeEnvelope → Bool
is_valid e = not (e.version == 0)

-- The part of `createRoot` that adds the envelope.
unfoldable pub add_time : TimeEnvelope → WireTime
unfolding is_valid no_time
add_time e =
    if is_valid e
    then record {
      time_version = e.version;
      clock_domain = e.clock_domain;
      clock_instance = e.clock_instance;
      time_ns = e.ns;
      time_quality = e.quality;
      time_source = e.source;
      restamp_reason = e.restamp_reason;
      has_device_time = e.has_device_time;
      device_instance = e.device_instance;
      device_ns = e.device_ns;
      has_timecode = e.has_timecode;
      timecode_kind = e.timecode_kind;
      timecode_instance = e.timecode_instance;
      timecode_ns = e.timecode_ns;
      has_smpte = e.has_smpte;
      tc_hours = e.hours;
      tc_minutes = e.minutes;
      tc_seconds = e.seconds;
      tc_frames = e.frames;
      tc_subframe = e.subframe;
      tc_subframes = e.subframes;
      rate_code = e.rate_code;
      drop_frame = e.drop_frame;
      rate_num = e.rate_num;
      rate_den = e.rate_den;
    }
    else no_time

-- The part of `SubjectList::parse` that reads it.
unfoldable pub read_time : WireTime → TimeEnvelope
unfolding no_envelope
read_time w = if w.time_version == 0 then no_envelope else record {
  version = w.time_version;
  clock_domain = w.clock_domain;
  clock_instance = w.clock_instance;
  ns = w.time_ns;
  quality = w.time_quality;
  source = w.time_source;
  restamp_reason = w.restamp_reason;
  has_device_time = w.has_device_time;
  device_instance = w.device_instance;
  device_ns = w.device_ns;
  has_timecode = w.has_timecode;
  timecode_kind = w.timecode_kind;
  timecode_instance = w.timecode_instance;
  timecode_ns = w.timecode_ns;
  has_smpte = w.has_smpte;
  hours = w.tc_hours;
  minutes = w.tc_minutes;
  seconds = w.tc_seconds;
  frames = w.tc_frames;
  subframe = w.tc_subframe;
  subframes = w.tc_subframes;
  rate_code = w.rate_code;
  drop_frame = w.drop_frame;
  rate_num = w.rate_num;
  rate_den = w.rate_den;
}

-- A receiver of an envelope with a version has all of its fields as they were sent; one whose
-- version is 0 leaves the receiver with a new envelope.
pub time_roundtrip :
    (e : TimeEnvelope) → read_time (add_time e) ≡ (if is_valid e then e else no_envelope)
unfolding add_time read_time is_valid no_time
time_roundtrip e = elim (Bool-cases (e.version == 0)) [
  | inl y ↦ rw (y, add_time, read_time, is_valid) refl
  | inr z ↦ rw (z, add_time, read_time, is_valid, z) refl
]
