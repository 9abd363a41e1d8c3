-- ===== src/Route/Names.antt =====
-- The member names of the routes' bodies, as bytes.
use showmesh_fpp_plugin.Base.{[], ◌∷◌, Bytes}

-- "schemaVersion"
abbrev pub schema_version : Bytes
schema_version = 115 ∷ 99 ∷ 104 ∷ 101 ∷ 109 ∷ 97 ∷ 86 ∷ 101 ∷ 114 ∷ 115 ∷ 105 ∷ 111 ∷ 110 ∷ []

-- "applied"
abbrev pub applied : Bytes
applied = 97 ∷ 112 ∷ 112 ∷ 108 ∷ 105 ∷ 101 ∷ 100 ∷ []

-- "gainStart"
abbrev pub gain_start : Bytes
gain_start = 103 ∷ 97 ∷ 105 ∷ 110 ∷ 83 ∷ 116 ∷ 97 ∷ 114 ∷ 116 ∷ []

-- "gainTarget"
abbrev pub gain_target : Bytes
gain_target = 103 ∷ 97 ∷ 105 ∷ 110 ∷ 84 ∷ 97 ∷ 114 ∷ 103 ∷ 101 ∷ 116 ∷ []

-- "fadeSeconds"
abbrev pub fade_seconds : Bytes
fade_seconds = 102 ∷ 97 ∷ 100 ∷ 101 ∷ 83 ∷ 101 ∷ 99 ∷ 111 ∷ 110 ∷ 100 ∷ 115 ∷ []

-- "startsAtMs"
abbrev pub starts_at_ms : Bytes
starts_at_ms = 115 ∷ 116 ∷ 97 ∷ 114 ∷ 116 ∷ 115 ∷ 65 ∷ 116 ∷ 77 ∷ 115 ∷ []

-- "endsAtMs"
abbrev pub ends_at_ms : Bytes
ends_at_ms = 101 ∷ 110 ∷ 100 ∷ 115 ∷ 65 ∷ 116 ∷ 77 ∷ 115 ∷ []

-- "ceiling"
abbrev pub ceiling : Bytes
ceiling = 99 ∷ 101 ∷ 105 ∷ 108 ∷ 105 ∷ 110 ∷ 103 ∷ []

-- "effectiveOutput"
abbrev pub effective_output : Bytes
effective_output =
    101 ∷ 102 ∷ 102 ∷ 101 ∷ 99 ∷ 116 ∷ 105 ∷ 118 ∷ 101 ∷ 79 ∷ 117 ∷ 116 ∷ 112 ∷ 117 ∷ 116 ∷ []

-- "requestId"
abbrev pub request_id : Bytes
request_id = 114 ∷ 101 ∷ 113 ∷ 117 ∷ 101 ∷ 115 ∷ 116 ∷ 73 ∷ 100 ∷ []

-- "targetPercent"
abbrev pub target_percent : Bytes
target_percent = 116 ∷ 97 ∷ 114 ∷ 103 ∷ 101 ∷ 116 ∷ 80 ∷ 101 ∷ 114 ∷ 99 ∷ 101 ∷ 110 ∷ 116 ∷ []

-- "weatherGateClosed"
abbrev pub weather_gate_closed : Bytes
weather_gate_closed =
    119 ∷ 101 ∷ 97 ∷ 116 ∷ 104 ∷ 101 ∷ 114 ∷ 71 ∷ 97 ∷ 116 ∷ 101 ∷ 67 ∷ 108 ∷ 111 ∷ 115 ∷ 101 ∷ 100
    ∷ []

-- "weatherGateRevision"
abbrev pub weather_gate_revision : Bytes
weather_gate_revision =
    119 ∷ 101 ∷ 97 ∷ 116 ∷ 104 ∷ 101 ∷ 114 ∷ 71 ∷ 97 ∷ 116 ∷ 101 ∷ 82 ∷ 101 ∷ 118 ∷ 105 ∷ 115 ∷ 105
    ∷ 111 ∷ 110 ∷ []

-- "effectiveOutputPercent"
abbrev pub effective_output_percent : Bytes
effective_output_percent =
    101 ∷ 102 ∷ 102 ∷ 101 ∷ 99 ∷ 116 ∷ 105 ∷ 118 ∷ 101 ∷ 79 ∷ 117 ∷ 116 ∷ 112 ∷ 117 ∷ 116 ∷ 80 ∷ 101
    ∷ 114 ∷ 99 ∷ 101 ∷ 110 ∷ 116 ∷ []

-- "closed"
abbrev pub closed : Bytes
closed = 99 ∷ 108 ∷ 111 ∷ 115 ∷ 101 ∷ 100 ∷ []

-- "revision"
abbrev pub revision : Bytes
revision = 114 ∷ 101 ∷ 118 ∷ 105 ∷ 115 ∷ 105 ∷ 111 ∷ 110 ∷ []

-- "channelRanges"
abbrev pub channel_ranges : Bytes
channel_ranges = 99 ∷ 104 ∷ 97 ∷ 110 ∷ 110 ∷ 101 ∷ 108 ∷ 82 ∷ 97 ∷ 110 ∷ 103 ∷ 101 ∷ 115 ∷ []

-- "excludedRanges"
abbrev pub excluded_ranges : Bytes
excluded_ranges =
    101 ∷ 120 ∷ 99 ∷ 108 ∷ 117 ∷ 100 ∷ 101 ∷ 100 ∷ 82 ∷ 97 ∷ 110 ∷ 103 ∷ 101 ∷ 115 ∷ []

-- "startChannel"
abbrev pub start_channel : Bytes
start_channel = 115 ∷ 116 ∷ 97 ∷ 114 ∷ 116 ∷ 67 ∷ 104 ∷ 97 ∷ 110 ∷ 110 ∷ 101 ∷ 108 ∷ []

-- "channelCount"
abbrev pub channel_count : Bytes
channel_count = 99 ∷ 104 ∷ 97 ∷ 110 ∷ 110 ∷ 101 ∷ 108 ∷ 67 ∷ 111 ∷ 117 ∷ 110 ∷ 116 ∷ []
