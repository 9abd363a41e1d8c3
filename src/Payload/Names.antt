-- ===== src/Payload/Names.antt =====
-- The member names of the observation and definition bodies, as bytes.
use showmesh_fpp_plugin.Base.{[], ◌∷◌, Bytes}

-- "schemaVersion"
abbrev pub schema_version : Bytes
schema_version = 115 ∷ 99 ∷ 104 ∷ 101 ∷ 109 ∷ 97 ∷ 86 ∷ 101 ∷ 114 ∷ 115 ∷ 105 ∷ 111 ∷ 110 ∷ []

-- "instanceUuid"
abbrev pub instance_uuid : Bytes
instance_uuid = 105 ∷ 110 ∷ 115 ∷ 116 ∷ 97 ∷ 110 ∷ 99 ∷ 101 ∷ 85 ∷ 117 ∷ 105 ∷ 100 ∷ []

-- "action"
abbrev pub action : Bytes
action = 97 ∷ 99 ∷ 116 ∷ 105 ∷ 111 ∷ 110 ∷ []

-- "sequence"
abbrev pub sequence : Bytes
sequence = 115 ∷ 101 ∷ 113 ∷ 117 ∷ 101 ∷ 110 ∷ 99 ∷ 101 ∷ []

-- "observedAtMillis"
abbrev pub observed_at_millis : Bytes
observed_at_millis =
    111 ∷ 98 ∷ 115 ∷ 101 ∷ 114 ∷ 118 ∷ 101 ∷ 100 ∷ 65 ∷ 116 ∷ 77 ∷ 105 ∷ 108 ∷ 108 ∷ 105 ∷ 115 ∷ []

-- "coalescedSincePreviousAcknowledged"
abbrev pub coalesced_since_previous_acknowledged : Bytes
coalesced_since_previous_acknowledged =
    99 ∷ 111 ∷ 97 ∷ 108 ∷ 101 ∷ 115 ∷ 99 ∷ 101 ∷ 100 ∷ 83 ∷ 105 ∷ 110 ∷ 99 ∷ 101 ∷ 80 ∷ 114 ∷ 101
    ∷ 118 ∷ 105 ∷ 111 ∷ 117 ∷ 115 ∷ 65 ∷ 99 ∷ 107 ∷ 110 ∷ 111 ∷ 119 ∷ 108 ∷ 101 ∷ 100 ∷ 103 ∷ 101
    ∷ 100 ∷ []

-- "unavailable"
abbrev pub unavailable : Bytes
unavailable = 117 ∷ 110 ∷ 97 ∷ 118 ∷ 97 ∷ 105 ∷ 108 ∷ 97 ∷ 98 ∷ 108 ∷ 101 ∷ []

-- "playlistName"
abbrev pub playlist_name : Bytes
playlist_name = 112 ∷ 108 ∷ 97 ∷ 121 ∷ 108 ∷ 105 ∷ 115 ∷ 116 ∷ 78 ∷ 97 ∷ 109 ∷ 101 ∷ []

-- "section"
abbrev pub section : Bytes
section = 115 ∷ 101 ∷ 99 ∷ 116 ∷ 105 ∷ 111 ∷ 110 ∷ []

-- "position"
abbrev pub position : Bytes
position = 112 ∷ 111 ∷ 115 ∷ 105 ∷ 116 ∷ 105 ∷ 111 ∷ 110 ∷ []

-- "playlistHash"
abbrev pub playlist_hash : Bytes
playlist_hash = 112 ∷ 108 ∷ 97 ∷ 121 ∷ 108 ∷ 105 ∷ 115 ∷ 116 ∷ 72 ∷ 97 ∷ 115 ∷ 104 ∷ []

-- "entryKey"
abbrev pub entry_key : Bytes
entry_key = 101 ∷ 110 ∷ 116 ∷ 114 ∷ 121 ∷ 75 ∷ 101 ∷ 121 ∷ []

-- "sequenceFilename"
abbrev pub sequence_filename : Bytes
sequence_filename =
    115 ∷ 101 ∷ 113 ∷ 117 ∷ 101 ∷ 110 ∷ 99 ∷ 101 ∷ 70 ∷ 105 ∷ 108 ∷ 101 ∷ 110 ∷ 97 ∷ 109 ∷ 101 ∷ []

-- "mediaFilename"
abbrev pub media_filename : Bytes
media_filename = 109 ∷ 101 ∷ 100 ∷ 105 ∷ 97 ∷ 70 ∷ 105 ∷ 108 ∷ 101 ∷ 110 ∷ 97 ∷ 109 ∷ 101 ∷ []

-- "playlistLoop"
abbrev pub playlist_loop : Bytes
playlist_loop = 112 ∷ 108 ∷ 97 ∷ 121 ∷ 108 ∷ 105 ∷ 115 ∷ 116 ∷ 76 ∷ 111 ∷ 111 ∷ 112 ∷ []

-- "definition"
abbrev pub definition : Bytes
definition = 100 ∷ 101 ∷ 102 ∷ 105 ∷ 110 ∷ 105 ∷ 116 ∷ 105 ∷ 111 ∷ 110 ∷ []

-- "capturedAtMillis"
abbrev pub captured_at_millis : Bytes
captured_at_millis =
    99 ∷ 97 ∷ 112 ∷ 116 ∷ 117 ∷ 114 ∷ 101 ∷ 100 ∷ 65 ∷ 116 ∷ 77 ∷ 105 ∷ 108 ∷ 108 ∷ 105 ∷ 115 ∷ []
