-- ===== src/Auth/Secrets.antt =====
-- `encryptSecret` and `decryptSecret` of api/src/lib/security.ts, and the backup codes.
use mathlib.Core.List.{reverse}
use nexus_efos.Common.{
  ℕ, zero, suc, ◌-◌, ◌≡◌, ◌≢◌, refl, ap, ◌∙◌, Bool, true, false, ◌&&◌, ◌||◌, Option, none, some,
  List, [], ◌∷◌, ◌++◌, map, all, leb, ltb, ◌<◌, length, ◌==◌, if◌then◌else◌, arith, All, ==_iff,
}
use nexus_efos.Auth.{Text, Environment}

abbrev pub colon : ℕ
colon = 58

-- `stored.split(":")`
abbrev pub cons_first : ℕ → List Text → List Text
cons_first c [] = (c ∷ []) ∷ []
cons_first c (part ∷ parts) = (c ∷ part) ∷ parts

abbrev pub split : ℕ → Text → List Text
split separator [] = [] ∷ []
split separator (c ∷ text) =
    let parts = split separator text in if c == separator then [] ∷ parts else cons_first c parts

-- `!part`, of a part that may be empty or undefined.
abbrev pub part_at : ℕ → List Text → Text
part_at i [] = []
part_at zero (part ∷ parts) = part
part_at (suc i) (part ∷ parts) = part_at i parts

abbrev pub is_empty : Text → Bool
is_empty [] = true
is_empty (c ∷ text) = false

module _ (env : Environment) where
  unfoldable pub encrypt_secret : Text → Text → Text
  encrypt_secret iv plaintext =
      let sealed = env.seal iv (env.to_utf8 plaintext) in
      env.to_hex iv ++ (colon ∷ (env.to_hex sealed.1 ++ (colon ∷ env.to_hex sealed.0)))

  abbrev pub decrypt_parts : Text → Text → Text → Option Text
  decrypt_parts iv_hex auth_tag_hex data_hex =
      if is_empty iv_hex || is_empty auth_tag_hex || is_empty data_hex
      then none
      else elim (env.unseal (env.from_hex iv_hex) (env.from_hex auth_tag_hex)
          (env.from_hex data_hex)) [ none ↦ none | some decrypted ↦ some (env.from_utf8 decrypted) ]

  -- `none` is an exception.
  unfoldable pub decrypt_secret : Text → Option Text
  decrypt_secret stored =
      let parts = split colon stored in
      decrypt_parts (part_at 0 parts) (part_at 1 parts) (part_at 2 parts)

-- `/^\d{6}$/`
abbrev pub is_totp_code : Text → Bool
is_totp_code code = length code == 6 && all (λ c. leb 48 c && leb c 57) code

-- `trim().toUpperCase()`, of a text in ASCII.
abbrev is_space : ℕ → Bool
is_space c = c == 32 || (leb 9 c && leb c 13)

abbrev drop_spaces : Text → Text
drop_spaces [] = []
drop_spaces (c ∷ text) = let rest = drop_spaces text in if is_space c then rest else c ∷ text

abbrev pub normal_code : Text → Text
normal_code code =
    map (λ c. if leb 97 c && leb c 122 then c - 32 else c)
      (reverse (drop_spaces (reverse (drop_spaces code))))

-- `matchAndConsumeBackupCode`: the codes that remain, if one matched.
abbrev pub consume : (ℕ → Bool) → List ℕ → Option (List ℕ)
consume matches [] = none
consume matches (hashed ∷ codes) =
    let rest = consume matches codes in
    if matches hashed
    then some codes
    else elim rest [ none ↦ none | some remaining ↦ some (hashed ∷ remaining) ]

unfoldable pub match_and_consume_backup_code : Environment → Text → List ℕ → Option (List ℕ)
match_and_consume_backup_code env supplied codes =
    consume (env.compare_hash (normal_code supplied)) codes

-- A text without separator is one part.
split-append :
    (s : ℕ) (xs ys : Text)
    → All (λ c. (c == s) ≡ false) xs
    → split s (xs ++ (s ∷ ys)) ≡ xs ∷ split s ys
split-append s [] ys h = simp ((==_iff s s).1 refl)
split-append s (x ∷ xs) ys (h, hs) = simp (h, split-append s xs ys hs)

split-none : (s : ℕ) (xs : Text) → All (λ c. (c == s) ≡ false) xs → split s xs ≡ xs ∷ []
split-none s [] h = refl
split-none s (x ∷ xs) (h, hs) = simp (h, split-none s xs hs)

non_empty : (t : Text) → t ≢ [] → is_empty t ≡ false
non_empty [] h = absurd (h refl)
non_empty (c ∷ t) h = refl

-- A text in which each surrogate is one of a pair, high before low.
abbrev is_plain : ℕ → Bool
is_plain c = ltb c 55296 || (leb 57344 c && ltb c 65536)

abbrev is_pair : ℕ → ℕ → Bool
is_pair c d = (leb 55296 c && ltb c 56320) && (leb 56320 d && ltb d 57344)

abbrev pub is_well_formed : Text → Bool
is_well_formed [] = true
is_well_formed (c ∷ []) = is_plain c
is_well_formed (c ∷ d ∷ t) =
    (is_plain c && is_well_formed (d ∷ t)) || (is_pair c d && is_well_formed t)

abbrev pub AreBytes : Text → Type 0
AreBytes t = All (λ b. b < 256) t

-- What the documentation of Node promises: buffers are of bytes; hexadecimal is digits, and is read
-- back; so is UTF-8, of a well-formed text; AES-256-GCM opens what it sealed and keeps the number of
-- bytes.
pub record IsSound (env : Environment) : Type 0 where
  pub hex_digits : (t : Text) → All (λ c. (c == colon) ≡ false) (env.to_hex t)
  pub hex_non_empty : (t : Text) → t ≢ [] → env.to_hex t ≢ []
  pub hex_back : (t : Text) → AreBytes t → env.from_hex (env.to_hex t) ≡ t
  pub hex_of_empty : env.to_hex [] ≡ []
  pub utf8-AreBytes : (t : Text) → AreBytes (env.to_utf8 t)
  pub utf8_back : (t : Text) → is_well_formed t ≡ true → env.from_utf8 (env.to_utf8 t) ≡ t
  pub utf8_of_empty : env.to_utf8 [] ≡ []
  pub utf8_non_empty : (t : Text) → t ≢ [] → env.to_utf8 t ≢ []
  pub sealed-AreBytes :
      (iv t : Text) → AreBytes iv → AreBytes t → iv ≢ [] → AreBytes (env.seal iv t).0
  pub tag-AreBytes : (iv t : Text) → AreBytes iv → AreBytes t → iv ≢ [] → AreBytes (env.seal iv t).1
  pub tag_non_empty : (iv t : Text) → AreBytes iv → AreBytes t → iv ≢ [] → (env.seal iv t).1 ≢ []
  pub length_kept :
      (iv t : Text) → AreBytes iv → AreBytes t → iv ≢ [] → length (env.seal iv t).0 ≡ length t
  pub opened :
      (iv t : Text)
      → AreBytes iv
      → AreBytes t
      → iv ≢ []
      → env.unseal iv (env.seal iv t).1 (env.seal iv t).0 ≡ some t

module _ (env : Environment) (sound : IsSound env) (iv : Text) (iv_bytes : AreBytes iv)
    (iv_given : iv ≢ []) where
  -- The hexadecimal text is empty where the bytes are, and these where the text is.
  empty_data : (u t : Text) → length u ≡ length t → is_empty (env.to_hex u) ≡ is_empty t
  empty_data [] [] h = rw sound.hex_of_empty
  empty_data [] (c ∷ t) h = absurd (omega arith)
  empty_data (c ∷ u) [] h = absurd (omega arith)
  empty_data (c ∷ u) (d ∷ t) h = non_empty _ (sound.hex_non_empty (c ∷ u) (λ e. cc))

  empty_utf8 : (t : Text) → is_empty (env.to_utf8 t) ≡ is_empty t
  empty_utf8 [] = rw sound.utf8_of_empty
  empty_utf8 (c ∷ t) = non_empty _ (sound.utf8_non_empty (c ∷ t) (λ e. cc))

  iv_part : is_empty (env.to_hex iv) ≡ false
  iv_part = non_empty _ (sound.hex_non_empty iv iv_given)

  module _ (t : Text) where
    abbrev encrypted : Text
    encrypted = (env.seal iv (env.to_utf8 t)).0

    abbrev auth_tag : Text
    auth_tag = (env.seal iv (env.to_utf8 t)).1

    utf8_bytes : AreBytes (env.to_utf8 t)
    utf8_bytes = sound.utf8-AreBytes t

    tag_part : is_empty (env.to_hex auth_tag) ≡ false
    tag_part = non_empty _ (
        sound.hex_non_empty _ (sound.tag_non_empty iv (env.to_utf8 t) iv_bytes utf8_bytes iv_given))

    data_part : is_empty (env.to_hex encrypted) ≡ is_empty t
    data_part =
        empty_data encrypted (env.to_utf8 t)
          (sound.length_kept iv (env.to_utf8 t) iv_bytes utf8_bytes iv_given)
        ∙ empty_utf8 t

    stored_parts :
        split colon (encrypt_secret env iv t)
        ≡ env.to_hex iv ∷ env.to_hex auth_tag ∷ env.to_hex encrypted ∷ []
    unfolding encrypt_secret
    stored_parts =
        split-append colon (env.to_hex iv) _ (sound.hex_digits iv)
        ∙ ap (λ p. env.to_hex iv ∷ p)
            (split-append colon (env.to_hex auth_tag) _ (sound.hex_digits _)
              ∙ ap (λ p. env.to_hex auth_tag ∷ p)
                  (split-none colon (env.to_hex encrypted) (sound.hex_digits _)))

    -- A secret that is not empty is decrypted to what was encrypted, and the empty one to an
    -- exception, if the text is well-formed UTF-16, the vector is of bytes and not empty, and
    -- hexadecimal, UTF-8 and the cipher are as documented.
    pub decrypt-encrypt :
        is_well_formed t ≡ true
        → decrypt_secret env (encrypt_secret env iv t) ≡ (if is_empty t then none else some t)
    unfolding decrypt_secret
    decrypt-encrypt formed = rw stored_parts (
        simp (
          iv_part,
          tag_part,
          data_part,
          sound.hex_back iv iv_bytes,
          sound.hex_back auth_tag
              (sound.tag-AreBytes iv (env.to_utf8 t) iv_bytes utf8_bytes iv_given),
          sound.hex_back encrypted
              (sound.sealed-AreBytes iv (env.to_utf8 t) iv_bytes utf8_bytes iv_given),
          sound.opened iv (env.to_utf8 t) iv_bytes utf8_bytes iv_given,
          sound.utf8_back t formed,
        ))
