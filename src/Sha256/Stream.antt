-- ===== src/Sha256/Stream.antt =====
-- Feeding the bytes in pieces is feeding them at once.
use showmesh_fpp_plugin.Base.{
  ℕ, zero, suc, ◌+◌, ◌-◌, ◌*◌, ◌%◌, ◌^◌, ◌≤◌, ◌<◌, ◌==◌, false, ◌≡◌, refl, sym, ◌∙◌, ap, [], ◌∷◌,
  ◌++◌, length, length-append, Bytes, arith, inl, inr, Bool-cases,
}
use mathlib.Core.List.{append_assoc, append-nil}
use showmesh_fpp_plugin.Json.Number.{take, drop}
use showmesh_fpp_plugin.Sha256.{Words, Sha256, block_length, settle, absorb, update}

pub take-append-drop : (n : ℕ) (xs : Bytes) → take n xs ++ drop n xs ≡ xs
unfolding take drop
take-append-drop zero xs = refl
take-append-drop (suc n) [] = refl
take-append-drop (suc n) (x ∷ xs) = ap (λ ys. x ∷ ys) (take-append-drop n xs)

pub length-take : (n : ℕ) (xs : Bytes) → length (take n xs) ≤ n
unfolding take
length-take zero xs = omega arith
length-take (suc n) [] = omega arith
length-take (suc n) (x ∷ xs) = omega (arith, length-take n xs)

pub length-drop : (n : ℕ) (xs : Bytes) → length (drop n xs) ≡ length xs - n
unfolding drop
length-drop zero xs = omega arith
length-drop (suc n) [] = omega arith
length-drop (suc n) (x ∷ xs) = omega (arith, length-drop n xs)

-- One byte at a time.
unfoldable pub feed : Sha256 → Bytes → Sha256
feed s [] = s
feed s (x ∷ xs) = feed (settle s (s.buffer ++ (x ∷ []))) xs

pub feed-append : (xs : Bytes) (s : Sha256) (ys : Bytes) → feed s (xs ++ ys) ≡ feed (feed s xs) ys
unfolding feed
feed-append [] s ys = refl
feed-append (x ∷ xs) s ys = feed-append xs (settle s (s.buffer ++ (x ∷ []))) ys

length-snoc : (xs : Bytes) (x : ℕ) → length (xs ++ (x ∷ [])) ≡ suc (length xs)
length-snoc xs x = omega (arith, length-append xs (x ∷ []))

settle_short :
    (s : Sha256) (bytes : Bytes)
    → length bytes < block_length
    → settle s bytes ≡ record s { buffer = bytes }
unfolding settle
settle_short s bytes h = let short : (length bytes == 64) ≡ false = ground arith in rw short refl

pub settle-room :
    (s : Sha256) (bytes : Bytes)
    → length bytes ≤ block_length
    → length (settle s bytes).buffer < block_length
unfolding settle
settle-room s bytes h = elim (Bool-cases (length bytes == 64)) [
  | inl e ↦ rw e (omega arith)
  | inr e ↦ rw e (ground arith)
]

-- Bytes that fit into the buffer.
pub feed-fits :
    (s : Sha256) (xs : Bytes)
    → length s.buffer < block_length
    → length s.buffer + length xs ≤ block_length
    → feed s xs ≡ settle s (s.buffer ++ xs)
unfolding feed settle
feed-fits s [] h k =
    ap (λ b. record s { buffer = b }) (sym (append-nil s.buffer))
    ∙ sym (settle_short s (s.buffer ++ []) (omega (arith, length-append s.buffer [])))
feed-fits s (x ∷ []) h k = refl
feed-fits s (x ∷ y ∷ ys) h k =
    let longer = s.buffer ++ (x ∷ []) in
    let n = length-snoc s.buffer x in
    ap (λ r. feed r (y ∷ ys)) (settle_short s longer (omega arith))
    ∙ feed-fits (record s { buffer = longer }) (y ∷ ys) (omega arith) (omega arith)
    ∙ ap (λ b. settle s b) (append_assoc s.buffer (x ∷ []) (y ∷ ys))

pub feed-room :
    (xs : Bytes) (s : Sha256)
    → length s.buffer < block_length
    → length (feed s xs).buffer < block_length
unfolding feed
feed-room [] s h = h
feed-room (x ∷ xs) s h =
    feed-room xs (settle s (s.buffer ++ (x ∷ [])))
      (settle-room s (s.buffer ++ (x ∷ [])) (omega (arith, length-snoc s.buffer x)))

pub absorb_lem :
    (fuel : ℕ) (s : Sha256) (bytes : Bytes)
    → length s.buffer < block_length
    → length bytes ≤ fuel
    → absorb fuel s bytes ≡ feed s bytes
unfolding absorb feed
absorb_lem zero s [] h k = refl
absorb_lem zero s (x ∷ xs) h k = absurd (omega arith)
absorb_lem (suc fuel) s [] h k = refl
absorb_lem (suc fuel) s (x ∷ xs) h k =
    let room = block_length - length s.buffer in
    let taken = take room (x ∷ xs) in
    let rest = drop room (x ∷ xs) in
    let short : length taken ≤ room = length-take room (x ∷ xs) in
    let full : length s.buffer + length taken ≤ block_length = omega arith in
    absorb_lem fuel (settle s (s.buffer ++ taken)) rest
      (settle-room s (s.buffer ++ taken) (omega (arith, length-append s.buffer taken)))
      (omega (arith, length-drop room (x ∷ xs)))
    ∙ ap (λ r. feed r rest) (sym (feed-fits s taken h full))
    ∙ sym (feed-append taken s rest)
    ∙ ap (λ b. feed s b) (take-append-drop room (x ∷ xs))

-- What the digest depends on: the words and the buffer.
abbrev pub core : Sha256 → Words × Bytes
core s = (s.state, s.buffer)

abbrev with_total : ℕ → Sha256 → Sha256
with_total n s = record s { total_bits = n }

settle-with_total :
    (n : ℕ) (s : Sha256) (bytes : Bytes)
    → settle (with_total n s) bytes ≡ with_total n (settle s bytes)
unfolding settle
settle-with_total n s bytes = elim (Bool-cases (length bytes == 64)) [
  | inl e ↦ rw e refl
  | inr e ↦ rw e refl
]

pub feed-with_total :
    (n : ℕ) (s : Sha256) (xs : Bytes) → feed (with_total n s) xs ≡ with_total n (feed s xs)
unfolding feed
feed-with_total n s [] = refl
feed-with_total n s (x ∷ xs) =
    ap (λ r. feed r xs) (settle-with_total n s (s.buffer ++ (x ∷ [])))
    ∙ feed-with_total n (settle s (s.buffer ++ (x ∷ []))) xs

-- The digest's state after some bytes depends on what it was before, not on the count of bits.
pub feed-core : (s r : Sha256) (xs : Bytes) → core s ≡ core r → core (feed s xs) ≡ core (feed r xs)
feed-core s r xs e =
    sym (ap core (feed-with_total 0 s xs))
    ∙ ap (λ c. core (feed (record { state = c.0; buffer = c.1; total_bits = 0 }) xs)) e
    ∙ ap core (feed-with_total 0 r xs)

pub update_lem :
    (s : Sha256) (bytes : Bytes)
    → length s.buffer < block_length
    → update s bytes
      ≡ record (feed s bytes) { total_bits = (s.total_bits + length bytes * 8) % 2 ^ 64 }
unfolding update
update_lem s bytes h =
    let n = (s.total_bits + length bytes * 8) % 2 ^ 64 in
    absorb_lem (length bytes) (with_total n s) bytes h (omega arith) ∙ feed-with_total n s bytes

-- Two updates, of whatever lengths, are one update with the bytes of both: of the hash, of the
-- bytes that wait for their block, and of the count of bits, which wraps at 64 bits.
pub update-append :
    (s : Sha256) (xs ys : Bytes)
    → length s.buffer < block_length
    → update (update s xs) ys ≡ update s (xs ++ ys)
update-append s xs ys h =
    let first = update_lem s xs h in
    let n = (s.total_bits + length xs * 8) % 2 ^ 64 in
    let total : (n + length ys * 8) % 2 ^ 64 ≡ (s.total_bits + length (xs ++ ys) * 8) % 2 ^ 64 =
      rw (length-append xs ys) (omega arith) in
    ap (λ r. update r ys) first
    ∙ update_lem (with_total n (feed s xs)) ys (feed-room xs s h)
    ∙ ap (λ r. with_total ((n + length ys * 8) % 2 ^ 64) r)
        (feed-with_total n (feed s xs) ys ∙ ap (λ r. with_total n r) (sym (feed-append xs s ys)))
    ∙ ap (λ m. with_total m (feed s (xs ++ ys))) total
    ∙ sym (update_lem s (xs ++ ys) h)
