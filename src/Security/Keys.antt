-- ===== src/Security/Keys.antt =====
-- internal/security/security.go: saving and loading an `APIKeyStore`, over calls of package os that may
-- fail, and the authenticators that the HTTP server takes.
use cortex_go.Errors.{Result-cases, file_missing, Error, Result, ok, err}
use cortex_go.Security.Identities.{parse_bearer, Identity}
use cortex_go.Prelude.{
  ◌≡◌, refl, ◌⊎◌, inl, inr, true, Option, none, some, Option-cases, is_some, Str, Dict,
}

-- encoding/json at the type of the keys; a nil map is one with no keys.
pub record KeyCodec (T : Type 0) : Type 0 where
  pub encode : Dict Identity → Result T
  pub decode : T → Result (Dict Identity)

-- The calls of package os that fail while a store is saved. The file that Close could not finish holds
-- `unfinished` instead of what was written.
pub record SaveConditions (T : Type 0) : Type 0 where
  pub create : Option Error
  pub write : Option Error
  pub chmod : Option Error
  pub close : Option Error
  pub rename : Option Error
  pub unfinished : T

-- What the temporary file holds behind Close.
abbrev pub closed : {T : Type 0} → SaveConditions T → T → T
closed c text = elim c.close [ none ↦ text | some e ↦ c.unfinished ]

module _ {T : Type 0} (codec : KeyCodec T) where
  -- f.Write and f.Chmod
  abbrev pub write_error : SaveConditions T → Option Error
  write_error c = elim c.write [ some e ↦ some e | none ↦ c.chmod ]

  -- Save: the error, and the file at the path. The temporary file is removed at the end.
  unfoldable pub save_keys : SaveConditions T → Dict Identity → Option T → Option Error × Option T
  save_keys c keys file = elim (codec.encode keys) [
    | err e ↦ (some e, file)
    | ok text ↦ elim c.create [
      | some e ↦ (some e, file)
      | none ↦ elim (write_error c) [
        | some e ↦ (some e, file)
        | none ↦ elim c.rename [ some e ↦ (some e, file) | none ↦ (none, some (closed c text)) ]
      ]
    ]
  ]

  -- Load: the error, and the keys; `failure` is that of os.ReadFile.
  unfoldable pub load_keys : Option Error → Option T → Dict Identity → Option Error × Dict Identity
  load_keys (some e) file keys = (some e, keys)
  load_keys none none keys = (some file_missing, keys)
  load_keys none (some text) keys = elim (codec.decode text) [
    | err e ↦ (some e, keys)
    | ok loaded ↦ (none, loaded)
  ]

  -- What encoding/json documents of its two functions: `settled` is what a text keeps of the keys,
  -- which replaces bytes that are not UTF-8 and sorts the entries.
  abbrev pub ReadsBack : (Dict Identity → Dict Identity) → Type 0
  ReadsBack settled =
      (m : Dict Identity) (t : T) → codec.encode m ≡ ok t → codec.decode t ≡ ok (settled m)

  -- A save that reports an error leaves the file as it was. One that reports none has a load read
  -- back what a text of JSON keeps of the keys (`settled`), whatever was in memory, unless Close
  -- failed: then what Close could not finish stands in the file.
  pub load_keys-save_keys :
      (settled : Dict Identity → Dict Identity) (c : SaveConditions T) (keys old : Dict Identity)
      (file : Option T)
      → ReadsBack settled
      → ((is_some (save_keys c keys file).0 ≡ true) × ((save_keys c keys file).1 ≡ file))
        ⊎ (((save_keys c keys file).0 ≡ none)
            × (((c.close ≡ none)
                  × (load_keys none (save_keys c keys file).1 old ≡ (none, settled keys)))
                ⊎ (((e : Error) × (c.close ≡ some e))
                    × ((save_keys c keys file).1 ≡ some c.unfinished))))
  unfolding save_keys load_keys
  load_keys-save_keys settled c keys old file reads = elim (Result-cases (codec.encode keys)) [
    | inr (e, bad) ↦ inl (rw (bad, save_keys) (refl, refl))
    | inl (text, good) ↦ elim (Option-cases c.create) [
      | inr (e, bad) ↦ inl (rw (good, save_keys) (rw bad (refl, refl)))
      | inl made ↦ elim (Option-cases (write_error c)) [
        | inr (e, bad) ↦ inl (rw (good, save_keys) (rw made (rw bad (refl, refl))))
        | inl written ↦ elim (Option-cases c.rename) [
          | inr (e, bad) ↦ inl (rw (good, save_keys) (rw made (rw written (rw bad (refl, refl)))))
          | inl renamed ↦ inr (
              rw (good, save_keys)
                (rw made (
                  rw written (
                    rw renamed (
                      refl,
                      elim (Option-cases c.close) [
                        | inl fine ↦ inl (fine, rw fine (rw (reads keys text good, load_keys) refl))
                        | inr (e, failed) ↦ inr ((e, failed), rw failed refl)
                      ],
                    )))))
        ]
      ]
    ]
  ]

-- APIKeyAuthenticator, of a store that may be nil
unfoldable pub api_key_authenticator : Option (Str → Option Identity) → Str → Option Identity
api_key_authenticator none key = none
api_key_authenticator (some authenticate) key = authenticate key

-- BearerAuthenticator with AuthenticateBearer, of a verifier that may be nil
unfoldable pub bearer_authenticator : Option (Str → Result Identity) → Str → Option Identity
bearer_authenticator none header = none
bearer_authenticator (some verify) header = elim (parse_bearer header) [
  | err e ↦ none
  | ok token ↦ elim (verify token) [ err e ↦ none | ok id ↦ some id ]
]
