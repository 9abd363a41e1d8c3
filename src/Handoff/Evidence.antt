-- ===== src/Handoff/Evidence.antt =====
-- CallbackEvidence of native/include/showmesh/callback_handoff.h: what the callback copies. A char
-- array is the bytes before its terminator; a `const char*` is `none` when it is null, and otherwise
-- the bytes it points to.
use showmesh_fpp_plugin.Base.{
  ℕ, zero, suc, ◌+◌, ◌-◌, ◌==◌, ℤ, eqb_ℤ, eqb_ℤ→eq, Bool, true, false, not, ◌&&◌, ◌||◌, ◌≡◌, refl,
  sym, ◌∙◌, if◌then◌else◌, [], ◌∷◌, Option, none, some, Bytes, eq_bytes, eq_bytes→eq, All, arith,
}
use showmesh_fpp_plugin.Identity.{PlaylistAction}

abbrev pub max_playlist_name_length : ℕ
max_playlist_name_length = 255

abbrev pub max_section_length : ℕ
max_section_length = 63

abbrev pub max_filename_length : ℕ
max_filename_length = 255

pub record CallbackEvidence : Type 0 where
  pub playlist_name : Bytes
  pub section : Bytes
  pub sequence_filename : Bytes
  pub media_filename : Bytes
  pub position : ℤ
  pub action : PlaylistAction
  pub observed_at_millis : ℤ
  pub playlist_loop : Option ℤ
  pub playlist_name_truncated : Bool
  pub section_truncated : Bool
  pub sequence_filename_truncated : Bool
  pub media_filename_truncated : Bool

-- The loop of copyField with `room` bytes left before the terminator, and whether more follow.
unfoldable pub copy_loop : ℕ → Bytes → Bytes × Bool
copy_loop room [] = ([], false)
copy_loop zero (c ∷ cs) = ([], not (c == 0))
copy_loop (suc room) (c ∷ cs) =
    let rest = copy_loop room cs in if c == 0 then ([], false) else (c ∷ rest.0, rest.1)

unfoldable pub copy_field : ℕ → Option Bytes → Bytes × Bool
copy_field capacity none = ([], false)
copy_field capacity (some source) = copy_loop (capacity - 1) source

unfoldable pub set_playlist_name : CallbackEvidence → Option Bytes → CallbackEvidence
set_playlist_name e source =
    let copied = copy_field (max_playlist_name_length + 1) source in
    record e { playlist_name = copied.0; playlist_name_truncated = copied.1 }

unfoldable pub set_section : CallbackEvidence → Option Bytes → CallbackEvidence
set_section e source =
    let copied = copy_field (max_section_length + 1) source in
    record e { section = copied.0; section_truncated = copied.1 }

unfoldable pub set_sequence_filename : CallbackEvidence → Option Bytes → CallbackEvidence
set_sequence_filename e source =
    let copied = copy_field (max_filename_length + 1) source in
    record e { sequence_filename = copied.0; sequence_filename_truncated = copied.1 }

unfoldable pub set_media_filename : CallbackEvidence → Option Bytes → CallbackEvidence
set_media_filename e source =
    let copied = copy_field (max_filename_length + 1) source in
    record e { media_filename = copied.0; media_filename_truncated = copied.1 }

unfoldable pub identity_field_truncated : CallbackEvidence → Bool
identity_field_truncated e = e.playlist_name_truncated || e.section_truncated

unfoldable pub same_entry_as : CallbackEvidence → CallbackEvidence → Bool
same_entry_as e other =
    eq_bytes e.playlist_name other.playlist_name
    && eq_bytes e.section other.section
    && eqb_ℤ e.position other.position

-- A C string: no byte of it is the terminator.
abbrev pub IsText : Bytes → Type 0
IsText cs = All (λ c. (c == 0) ≡ false) cs

copy_loop-whole :
    (room : ℕ) (cs : Bytes) → IsText cs → (copy_loop room cs).1 ≡ false → (copy_loop room cs).0 ≡ cs
unfolding copy_loop
copy_loop-whole room [] t h = refl
copy_loop-whole zero (c ∷ cs) t h = absurd (ground arith)
copy_loop-whole (suc room) (c ∷ cs) t h = ground (arith, copy_loop-whole room cs)

-- What one evidence copies of the fields that determine identity.
abbrev pub observed : CallbackEvidence → Bytes → Bytes → CallbackEvidence
observed e name section = set_section (set_playlist_name e (some name)) (some section)

-- Two observations whose identity fields were not truncated read as the same entry only if the
-- playlist names and the sections that the callback was given are equal, and the positions too.
pub same_entry_as-observed :
    (e e' : CallbackEvidence) (name name' section section' : Bytes)
    → IsText name
    → IsText name'
    → IsText section
    → IsText section'
    → identity_field_truncated (observed e name section) ≡ false
    → identity_field_truncated (observed e' name' section') ≡ false
    → same_entry_as (observed e name section) (observed e' name' section') ≡ true
    → (name ≡ name') × (section ≡ section') × (e.position ≡ e'.position)
unfolding set_section set_playlist_name copy_field identity_field_truncated same_entry_as
same_entry_as-observed e e' name name' section section' t t' u u' h h' k = (
  sym (copy_loop-whole 255 name t (ground arith))
      ∙ eq_bytes→eq (copy_loop 255 name).0 (copy_loop 255 name').0 (ground arith)
      ∙ copy_loop-whole 255 name' t' (ground arith),
  sym (copy_loop-whole 63 section u (ground arith))
      ∙ eq_bytes→eq (copy_loop 63 section).0 (copy_loop 63 section').0 (ground arith)
      ∙ copy_loop-whole 63 section' u' (ground arith),
  eqb_ℤ→eq e.position e'.position (ground arith),
)
