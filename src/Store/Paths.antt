-- ===== src/Store/Paths.antt =====
-- The paths of native/src/atomic_write.cpp and of resolveSequenceStateDir.
use showmesh_fpp_plugin.Base.{
  ◌==◌, Bool, false, if◌then◌else◌, [], ◌∷◌, ◌++◌, null, Option, none, some, Bytes,
}

unfoldable pub ends_in_slash : Bytes → Bool
ends_in_slash [] = false
ends_in_slash (c ∷ []) = c == 47
ends_in_slash (c ∷ d ∷ cs) = ends_in_slash (d ∷ cs)

unfoldable pub join_path : Bytes → Bytes → Bytes
join_path dir name =
    if null dir then name else if ends_in_slash dir then dir ++ name else dir ++ (47 ∷ name)

-- The text before the last '/', where there is one.
unfoldable pub before_last_slash : Bytes → Option Bytes
before_last_slash [] = none
before_last_slash (c ∷ cs) = elim (before_last_slash cs) [
  | some rest ↦ some (c ∷ rest)
  | none ↦ if c == 47 then some [] else none
]

unfoldable pub directory_of : Bytes → Bytes
directory_of path = elim (before_last_slash path) [
  | none ↦ 46 ∷ []
  | some [] ↦ 47 ∷ []
  | some (c ∷ cs) ↦ c ∷ cs
]

-- "plugindata/fpp-showmesh" and "/home/fpp/media/plugindata/fpp-showmesh".
abbrev state_dir_suffix : Bytes
state_dir_suffix =
    112 ∷ 108 ∷ 117 ∷ 103 ∷ 105 ∷ 110 ∷ 100 ∷ 97 ∷ 116 ∷ 97 ∷ 47 ∷ 102 ∷ 112 ∷ 112 ∷ 45 ∷ 115 ∷ 104
    ∷ 111 ∷ 119 ∷ 109 ∷ 101 ∷ 115 ∷ 104 ∷ []

abbrev default_state_dir : Bytes
default_state_dir =
    47 ∷ 104 ∷ 111 ∷ 109 ∷ 101 ∷ 47 ∷ 102 ∷ 112 ∷ 112 ∷ 47 ∷ 109 ∷ 101 ∷ 100 ∷ 105 ∷ 97 ∷ 47 ∷ 112
    ∷ 108 ∷ 117 ∷ 103 ∷ 105 ∷ 110 ∷ 100 ∷ 97 ∷ 116 ∷ 97 ∷ 47 ∷ 102 ∷ 112 ∷ 112 ∷ 45 ∷ 115 ∷ 104
    ∷ 111 ∷ 119 ∷ 109 ∷ 101 ∷ 115 ∷ 104 ∷ []

-- What std::getenv answers for the override and for MEDIADIR; `none` is a null pointer.
unfoldable pub media_state_dir : Option Bytes → Bytes
media_state_dir none = default_state_dir
media_state_dir (some media_dir) =
    if null media_dir then default_state_dir else join_path media_dir state_dir_suffix

unfoldable pub resolve_sequence_state_dir : Option Bytes → Option Bytes → Bytes
resolve_sequence_state_dir none media_dir = media_state_dir media_dir
resolve_sequence_state_dir (some chosen) media_dir =
    if null chosen then media_state_dir media_dir else chosen
