-- ===== src/Security/Identities.antt =====
-- internal/security/security.go: `Identity`, `APIKeyStore`, `ParseBearer` and
-- `SanitizePrompt`. Times are seconds or nanoseconds since the epoch, 0 for Go's zero time.
use cortex_go.Prelude.{
  ℕ, ◌≡◌, ◌≢◌, not, ◌&&◌, Option, none, some, List, [], ◌∷◌, arith, ltb, ◌==◌, if◌then◌else◌,
  length, take, drop, Str, bytes, str_eq_refl, str_eq_iff, has_prefix, trim_space, is_empty, Dict,
  lookup, put, remove, lookup-put, lookup-remove,
}
use cortex_go.Errors.{Result, ok, err, missing_bearer, empty_bearer}

pub record Identity : Type 0 where
  pub subject : Str
  pub tenant : Str
  pub roles : List Str
  pub expires_at : ℕ

-- `keyHash`, the SHA-256 of a key in hexadecimal, is a parameter of the store.
module _ (key_hash : Str → Str) where
  unfoldable pub put_key : Str → Identity → Dict Identity → Dict Identity
  put_key key id keys = put (key_hash key) id keys

  unfoldable pub revoke : Str → Dict Identity → Dict Identity
  revoke key keys = remove (key_hash key) keys

  -- !ok || (!id.ExpiresAt.IsZero() && time.Now().After(id.ExpiresAt))
  unfoldable pub authenticate : ℕ → Dict Identity → Str → Option Identity
  authenticate now keys key = elim (lookup (key_hash key) keys) [
    | none ↦ none
    | some id ↦ if not (id.expires_at == 0) && ltb id.expires_at now then none else some id
  ]

  -- A key that has been put authenticates as its identity until that expires, and as nobody after.
  pub authenticate-put_key_self :
      (now : ℕ) (keys : Dict Identity) (key : Str) (id : Identity)
      → authenticate now (put_key key id keys) key
        ≡ (if not (id.expires_at == 0) && ltb id.expires_at now then none else some id)
  unfolding authenticate put_key
  authenticate-put_key_self now keys key id =
      ground (arith, lookup-put (key_hash key) (key_hash key) id keys, str_eq_refl (key_hash key))

  -- A revoked key authenticates as nobody; other keys, of other hashes, are not touched.
  pub authenticate-revoke :
      (now : ℕ) (keys : Dict Identity) (key other : Str)
      → (authenticate now (revoke key keys) key ≡ none)
        × (key_hash key ≢ key_hash other
            → authenticate now (revoke key keys) other ≡ authenticate now keys other)
  unfolding authenticate revoke
  authenticate-revoke now keys key other = (
    ground (arith, lookup-remove (key_hash key) (key_hash key) keys, str_eq_refl (key_hash key)),
    λ h. ground (
      arith,
      lookup-remove (key_hash key) (key_hash other) keys,
      str_eq_iff (key_hash key) (key_hash other),
    ),
  )

-- "Bearer "
abbrev bearer : Str
bearer = bytes "Bearer "

-- ParseBearer
unfoldable pub parse_bearer : Str → Result Str
parse_bearer v =
    if not (has_prefix v bearer)
    then err missing_bearer
    else let t = trim_space (drop 7 v) in if is_empty t then err empty_bearer else ok t

-- strings.ReplaceAll(s, "\x00", "")
unfoldable pub without_nul : Str → Str
without_nul [] = []
without_nul (b ∷ s) = let rest = without_nul s in if b == 0 then rest else b ∷ rest

abbrev pub max_prompt : ℕ
max_prompt = 100000

unfoldable pub sanitize_prompt : Str → Str
sanitize_prompt s =
    let t = without_nul s in if ltb max_prompt (length t) then take max_prompt t else t
