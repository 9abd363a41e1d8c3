-- ===== src/Codec/Names.antt =====
-- The member names of the state's JSON text, as bytes.
use showmesh_fpp_plugin.Base.{[], ◌∷◌, Bytes}

-- "schemaVersion"
abbrev pub schema_version : Bytes
schema_version = 115 ∷ 99 ∷ 104 ∷ 101 ∷ 109 ∷ 97 ∷ 86 ∷ 101 ∷ 114 ∷ 115 ∷ 105 ∷ 111 ∷ 110 ∷ []

-- "revision"
abbrev pub revision : Bytes
revision = 114 ∷ 101 ∷ 118 ∷ 105 ∷ 115 ∷ 105 ∷ 111 ∷ 110 ∷ []

-- "stateChangedAtMillis"
abbrev pub state_changed_at_millis : Bytes
state_changed_at_millis =
    115 ∷ 116 ∷ 97 ∷ 116 ∷ 101 ∷ 67 ∷ 104 ∷ 97 ∷ 110 ∷ 103 ∷ 101 ∷ 100 ∷ 65 ∷ 116 ∷ 77 ∷ 105 ∷ 108
    ∷ 108 ∷ 105 ∷ 115 ∷ []

-- "instanceId"
abbrev pub instance_id : Bytes
instance_id = 105 ∷ 110 ∷ 115 ∷ 116 ∷ 97 ∷ 110 ∷ 99 ∷ 101 ∷ 73 ∷ 100 ∷ []

-- "ceilingStart"
abbrev pub ceiling_start : Bytes
ceiling_start = 99 ∷ 101 ∷ 105 ∷ 108 ∷ 105 ∷ 110 ∷ 103 ∷ 83 ∷ 116 ∷ 97 ∷ 114 ∷ 116 ∷ []

-- "ceilingTarget"
abbrev pub ceiling_target : Bytes
ceiling_target = 99 ∷ 101 ∷ 105 ∷ 108 ∷ 105 ∷ 110 ∷ 103 ∷ 84 ∷ 97 ∷ 114 ∷ 103 ∷ 101 ∷ 116 ∷ []

-- "ceilingFadeStartMillis"
abbrev pub ceiling_fade_start_millis : Bytes
ceiling_fade_start_millis =
    99 ∷ 101 ∷ 105 ∷ 108 ∷ 105 ∷ 110 ∷ 103 ∷ 70 ∷ 97 ∷ 100 ∷ 101 ∷ 83 ∷ 116 ∷ 97 ∷ 114 ∷ 116 ∷ 77
    ∷ 105 ∷ 108 ∷ 108 ∷ 105 ∷ 115 ∷ []

-- "ceilingFadeEndMillis"
abbrev pub ceiling_fade_end_millis : Bytes
ceiling_fade_end_millis =
    99 ∷ 101 ∷ 105 ∷ 108 ∷ 105 ∷ 110 ∷ 103 ∷ 70 ∷ 97 ∷ 100 ∷ 101 ∷ 69 ∷ 110 ∷ 100 ∷ 77 ∷ 105 ∷ 108
    ∷ 108 ∷ 105 ∷ 115 ∷ []

-- "gainStart"
abbrev pub gain_start : Bytes
gain_start = 103 ∷ 97 ∷ 105 ∷ 110 ∷ 83 ∷ 116 ∷ 97 ∷ 114 ∷ 116 ∷ []

-- "gainTarget"
abbrev pub gain_target : Bytes
gain_target = 103 ∷ 97 ∷ 105 ∷ 110 ∷ 84 ∷ 97 ∷ 114 ∷ 103 ∷ 101 ∷ 116 ∷ []

-- "gainFadeStartMillis"
abbrev pub gain_fade_start_millis : Bytes
gain_fade_start_millis =
    103 ∷ 97 ∷ 105 ∷ 110 ∷ 70 ∷ 97 ∷ 100 ∷ 101 ∷ 83 ∷ 116 ∷ 97 ∷ 114 ∷ 116 ∷ 77 ∷ 105 ∷ 108 ∷ 108
    ∷ 105 ∷ 115 ∷ []

-- "gainFadeEndMillis"
abbrev pub gain_fade_end_millis : Bytes
gain_fade_end_millis =
    103 ∷ 97 ∷ 105 ∷ 110 ∷ 70 ∷ 97 ∷ 100 ∷ 101 ∷ 69 ∷ 110 ∷ 100 ∷ 77 ∷ 105 ∷ 108 ∷ 108 ∷ 105 ∷ 115
    ∷ []

-- "lastAppliedCeiling"
abbrev pub last_applied_ceiling : Bytes
last_applied_ceiling =
    108 ∷ 97 ∷ 115 ∷ 116 ∷ 65 ∷ 112 ∷ 112 ∷ 108 ∷ 105 ∷ 101 ∷ 100 ∷ 67 ∷ 101 ∷ 105 ∷ 108 ∷ 105 ∷ 110
    ∷ 103 ∷ []

-- "lastAppliedGain"
abbrev pub last_applied_gain : Bytes
last_applied_gain =
    108 ∷ 97 ∷ 115 ∷ 116 ∷ 65 ∷ 112 ∷ 112 ∷ 108 ∷ 105 ∷ 101 ∷ 100 ∷ 71 ∷ 97 ∷ 105 ∷ 110 ∷ []

-- "persistedAtMillis"
abbrev pub persisted_at_millis : Bytes
persisted_at_millis =
    112 ∷ 101 ∷ 114 ∷ 115 ∷ 105 ∷ 115 ∷ 116 ∷ 101 ∷ 100 ∷ 65 ∷ 116 ∷ 77 ∷ 105 ∷ 108 ∷ 108 ∷ 105
    ∷ 115 ∷ []

-- "weatherGateClosed"
abbrev pub weather_gate_closed : Bytes
weather_gate_closed =
    119 ∷ 101 ∷ 97 ∷ 116 ∷ 104 ∷ 101 ∷ 114 ∷ 71 ∷ 97 ∷ 116 ∷ 101 ∷ 67 ∷ 108 ∷ 111 ∷ 115 ∷ 101 ∷ 100
    ∷ []

-- "weatherGateRevision"
abbrev pub weather_gate_revision : Bytes
weather_gate_revision =
    119 ∷ 101 ∷ 97 ∷ 116 ∷ 104 ∷ 101 ∷ 114 ∷ 71 ∷ 97 ∷ 116 ∷ 101 ∷ 82 ∷ 101 ∷ 118 ∷ 105 ∷ 115 ∷ 105
    ∷ 111 ∷ 110 ∷ []

-- "ceilingChangedAtMillis"
abbrev pub ceiling_changed_at_millis : Bytes
ceiling_changed_at_millis =
    99 ∷ 101 ∷ 105 ∷ 108 ∷ 105 ∷ 110 ∷ 103 ∷ 67 ∷ 104 ∷ 97 ∷ 110 ∷ 103 ∷ 101 ∷ 100 ∷ 65 ∷ 116 ∷ 77
    ∷ 105 ∷ 108 ∷ 108 ∷ 105 ∷ 115 ∷ []
