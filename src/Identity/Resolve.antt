-- ===== src/Identity/Resolve.antt =====
-- What an entry key stands for: entries of one key are one entry.
use showmesh_fpp_plugin.Base.{
  ℤ, ◌≡◌, ◌≢◌, refl, sym, ◌∙◌, ap, subst, false, true, All, ◌⊎◌, inl, inr, Bool-cases, [], ◌∷◌,
  some, Bytes, eq_bytes, eq_bytes_iff, arith,
}
use showmesh_fpp_plugin.Json.{Parsed, object_value, ok}
use showmesh_fpp_plugin.Json.Number.{NumberText}
use showmesh_fpp_plugin.Json.Text.{
  less_utf16, lt_units, to_utf16, utf16_step, following, lead_bits, gather, units_of,
}
use showmesh_fpp_plugin.Json.Strings.{Utf8, no_bytes, one_byte}
use showmesh_fpp_plugin.Json.Parser.{parse}
use showmesh_fpp_plugin.Json.Writer.{canonicalize, sort_value, sort_members, insert_member}
use showmesh_fpp_plugin.Json.Readable.{IsReadable, IsReadBack}
use showmesh_fpp_plugin.Json.Canonical.{parse-canonicalize}
use showmesh_fpp_plugin.Codec.Exact.{distinct-Distinct, is_ascii-Utf8}
use showmesh_fpp_plugin.Sha256.{sha256_hex}
use showmesh_fpp_plugin.Sha256.Hex.{is_hex, sha256_hex-is_hex}
use showmesh_fpp_plugin.Identity.{
  PlaylistAction, start, playing, stop, query_next, unknown, playlist_action_name,
  playlist_action_from_name, EntryIdentity, resolved, identity_members, instance_uuid_name,
  playlist_hash_name, playlist_name_name, position_name, section_name, derive_entry_key, identify,
  resolve_entry_identity,
}

-- Each action's name is read back as the action.
pub playlist_action_from_name-name :
    (a : PlaylistAction) → playlist_action_from_name (playlist_action_name a) ≡ a
unfolding playlist_action_from_name playlist_action_name eq_bytes
playlist_action_from_name-name start = refl
playlist_action_from_name-name playing = refl
playlist_action_from_name-name stop = refl
playlist_action_from_name-name query_next = refl
playlist_action_from_name-name unknown = refl

-- Two different texts have the same hash.
abbrev pub Collide : Bytes → Bytes → Type 0
Collide x y = (x ≢ y) × (sha256_hex x ≡ sha256_hex y)

hash-cases : (x y : Bytes) → sha256_hex x ≡ sha256_hex y → (x ≡ y) ⊎ Collide x y
hash-cases x y h = elim (Bool-cases (eq_bytes x y)) [
  | inl e ↦ inl ((eq_bytes_iff x y).0 e)
  | inr e ↦ inr ((λ k. different k e), h)
]
  where
    different : x ≡ y → eq_bytes x y ≡ false → ⊥
    different k e = let same = (eq_bytes_iff x y).1 k in cc

hex-Utf8 : (cs : Bytes) → All (λ c. is_hex c ≡ true) cs → Utf8 cs
hex-Utf8 [] h = no_bytes
hex-Utf8 (c ∷ cs) h = one_byte c cs (ground (arith, h.0)) (hex-Utf8 cs h.1)

module _ {Num : Type 0} (t : NumberText Num) (of_int : ℤ → Num) (to_int : Num → ℤ) where
  -- The strings are UTF-8, and the position is read back from its text as a double and from that.
  pub record IsKeyable (identity : EntryIdentity) : Type 0 where
    pub instance_uuid : Utf8 identity.instance_uuid
    pub playlist_name : Utf8 identity.playlist_name
    pub section : Utf8 identity.section
    pub position : IsReadBack t (of_int identity.position)
    pub exact : to_int (of_int identity.position) ≡ identity.position

  identity-IsReadable :
      (a : EntryIdentity)
      → IsKeyable a
      → Utf8 a.playlist_hash
      → IsReadable t 0 (object_value (identity_members t of_int a))
  unfolding IsReadable identity_members eq_bytes
  identity-IsReadable a k h = (
    omega arith,
    distinct-Distinct (identity_members t of_int a) refl,
    ((
      is_ascii-Utf8 instance_uuid_name refl,
      k.instance_uuid,
      (
        is_ascii-Utf8 playlist_hash_name refl,
        h,
        (
          is_ascii-Utf8 playlist_name_name refl,
          k.playlist_name,
          (
            is_ascii-Utf8 position_name refl,
            k.position,
            (is_ascii-Utf8 section_name refl, k.section, tt),
          ),
        ),
      ),
    )),
  )

  identity-sorted :
      (a : EntryIdentity)
      → sort_value (object_value (identity_members t of_int a))
        ≡ object_value (identity_members t of_int a)
  unfolding sort_members sort_value insert_member less_utf16 lt_units to_utf16 utf16_step following
      lead_bits gather units_of identity_members
  identity-sorted a = refl

  same_members :
      (a b : EntryIdentity)
      → IsKeyable a
      → IsKeyable b
      → Parsed.ok (object_value (identity_members t of_int a)) []
        ≡ ok (object_value (identity_members t of_int b)) []
      → a ≡ b
  unfolding identity_members
  same_members a b k l h =
      let uuid : a.instance_uuid ≡ b.instance_uuid = cc in
      let name : a.playlist_name ≡ b.playlist_name = cc in
      let hash : a.playlist_hash ≡ b.playlist_hash = cc in
      let section : a.section ≡ b.section = cc in
      let position : of_int a.position ≡ of_int b.position = cc in
      let back : a.position ≡ b.position = sym k.exact ∙ ap to_int position ∙ l.exact in cc

  -- The canonical text of the identity, which is parsed back to its five members, and the key.
  identity-text :
      (a : EntryIdentity)
      → IsKeyable a
      → Utf8 a.playlist_hash
      → (text : Bytes) × (derive_entry_key t of_int a ≡ sha256_hex text)
        × (canonicalize t (object_value (identity_members t of_int a)) ≡ some text)
        × (parse t text ≡ ok (object_value (identity_members t of_int a)) [])
  unfolding derive_entry_key
  identity-text a k h =
      let p =
        parse-canonicalize t (object_value (identity_members t of_int a))
          (identity-IsReadable a k h) in
      (p.0, rw (derive_entry_key, p.1) refl, p.1, p.2 ∙ ap (λ v. ok v []) (identity-sorted a))

  -- What a resolution says of its identity.
  resolution-parts :
      (uuid name definition section : Bytes) (position : ℤ) (a : EntryIdentity)
      (canonical entry_key : Bytes)
      → resolve_entry_identity t of_int uuid name definition section position
        ≡ resolved a canonical entry_key
      → (a.instance_uuid ≡ uuid)
        × (a.playlist_name ≡ name)
        × (a.section ≡ section)
        × (a.position ≡ position)
        × (a.playlist_hash ≡ sha256_hex canonical)
        × (entry_key ≡ derive_entry_key t of_int a)
  unfolding resolve_entry_identity identify
  resolution-parts uuid name definition section position a canonical entry_key h = ground arith

  hash-Utf8 :
      (a : EntryIdentity) (text : Bytes) → a.playlist_hash ≡ sha256_hex text → Utf8 a.playlist_hash
  hash-Utf8 a text h = subst Utf8 (sym h) (hex-Utf8 (sha256_hex text) (sha256_hex-is_hex text).1)

  -- The texts that two keys are the hashes of are different and have the same hash.
  abbrev pub KeysCollide : EntryIdentity → EntryIdentity → Type 0
  KeysCollide a b =
      (x : Bytes) × (y : Bytes) × (canonicalize t (object_value (identity_members t of_int a))
        ≡ some x)
      × (canonicalize t (object_value (identity_members t of_int b)) ≡ some y)
      × Collide x y

  derive_entry_key-same :
      (a b : EntryIdentity)
      → IsKeyable a
      → IsKeyable b
      → Utf8 a.playlist_hash
      → Utf8 b.playlist_hash
      → derive_entry_key t of_int a ≡ derive_entry_key t of_int b
      → (a ≡ b) ⊎ KeysCollide a b
  derive_entry_key-same a b k l u v e =
      let p = identity-text a k u in
      let q = identity-text b l v in
      elim (hash-cases p.0 q.0 (sym p.1 ∙ e ∙ q.1)) [
        | inl same ↦ inl (same_members a b k l (sym p.3 ∙ ap (λ x. parse t x) same ∙ q.3))
        | inr c ↦ inr (p.0, q.0, p.2, q.2, c)
      ]

  -- Two playlist entries that are resolved to the same entry key, where their strings are UTF-8 and
  -- their positions are exact as doubles and read back from their text, are the same entry: the same
  -- instance UUID, playlist name, section and position, and definitions of the same canonical text;
  -- unless the canonical texts of the definitions, or those of the two identities, are different and
  -- have the same SHA-256.
  pub resolve_entry_identity-key :
      (uuid name definition section uuid' name' definition' section' : Bytes)
      (position position' : ℤ) (a b : EntryIdentity) (canonical canonical' entry_key : Bytes)
      → resolve_entry_identity t of_int uuid name definition section position
        ≡ resolved a canonical entry_key
      → resolve_entry_identity t of_int uuid' name' definition' section' position'
        ≡ resolved b canonical' entry_key
      → IsKeyable a
      → IsKeyable b
      → ((uuid ≡ uuid')
          × (name ≡ name')
          × (section ≡ section')
          × (position ≡ position')
          × (canonical ≡ canonical'))
        ⊎ Collide canonical canonical'
        ⊎ KeysCollide a b
  resolve_entry_identity-key uuid name definition section uuid' name' definition' section' position
        position' a b canonical canonical' entry_key h h' k l =
      let (u, n, s, p, digest, key) =
        resolution-parts uuid name definition section position a canonical entry_key h in
      let (u', n', s', p', digest', key') =
        resolution-parts uuid' name' definition' section' position' b canonical' entry_key h' in
      elim (derive_entry_key-same a b k l (hash-Utf8 a canonical digest)
        (hash-Utf8 b canonical' digest') (sym key ∙ key')) [
          | inl e ↦
              elim (hash-cases canonical canonical'
                (sym digest ∙ ap (λ i. i.playlist_hash) e ∙ digest')) [
                  | inl same ↦ inl (
                    sym u ∙ ap (λ i. i.instance_uuid) e ∙ u',
                    sym n ∙ ap (λ i. i.playlist_name) e ∙ n',
                    sym s ∙ ap (λ i. i.section) e ∙ s',
                    sym p ∙ ap (λ i. i.position) e ∙ p',
                    same,
                  )
                  | inr c ↦ inr (inl c)
                ]
          | inr c ↦ inr (inr c)
        ]
