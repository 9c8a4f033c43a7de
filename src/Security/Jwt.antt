-- ===== src/Security/Jwt.antt =====
-- internal/security/security.go: `JWTVerifier`, for tokens signed with HS256.
use cortex_go.Prelude.{
  ℕ, ◌<◌, ◌≡◌, refl, sym, ap, ◌∙◌, inl, inr, false, not, ◌||◌, Option, none, some, List, [], ◌∷◌,
  ◌++◌, arith, leb, ◌==◌, if◌then◌else◌, Bool-cases, Option-cases, Str, bytes, str_eq, str_eq_iff,
  is_empty, Dict, lookup, put,
}
use cortex_go.Errors.{
  Result, ok, err, Result-cases, invalid_jwt, unsupported_algorithm, unknown_key_id,
  invalid_signature, invalid_claims, token_expired,
}
use cortex_go.Security.Identities.{Identity, parse_bearer}

pub record Header : Type 0 where
  pub alg : Str
  pub kid : Str

-- `exp` is the claim if it is positive, and 0 for any other value.
pub record Claims : Type 0 where
  pub sub : Str
  pub tenant : Str
  pub roles : List Str
  pub exp : ℕ

-- The standard library's part: base64.RawURLEncoding, json.Unmarshal into the two structs, and HMAC
-- with SHA-256 of a key and a message.
pub record Crypto : Type 0 where
  pub decode_base64 : Str → Result Str
  pub header_of : Str → Option Header
  pub claims_of : Str → Option Claims
  pub hmac : Str → Str → Str

-- strings.Split(token, "."): the part read so far, and the parts after it
unfoldable pub split_from : Str → Str → List Str
split_from part [] = part ∷ []
split_from part (c ∷ s) =
    let dot = c == b'.' in
    let rest = split_from (if dot then [] else part ++ c ∷ []) s in
    if dot then part ∷ rest else rest

unfoldable pub split : Str → List Str
split s = split_from [] s

-- v.keys[kid] = secret
unfoldable pub rotate : Str → Str → Dict Str → Dict Str
rotate kid secret keys = put kid secret keys

-- NewJWTVerifier
unfoldable pub new_verifier : Str → Dict Str
new_verifier secret = rotate (bytes "default") secret []

unfoldable pub key_of : Dict Str → Str → Str
key_of keys kid = elim (lookup kid keys) [ none ↦ [] | some k ↦ k ]

module _ (crypto : Crypto) (now : ℕ) where
  unfoldable pub check_claims : Str → Result Identity
  check_claims part = elim (crypto.decode_base64 part) [
    | err e ↦ err invalid_claims
    | ok text ↦ elim (crypto.claims_of text) [
      | none ↦ err invalid_claims
      | some c ↦
          if c.exp == 0 || leb c.exp now
          then err token_expired
          else ok
              (record { subject = c.sub; tenant = c.tenant; roles = c.roles; expires_at = c.exp })
    ]
  ]

  unfoldable pub check_signature : Str → Str → Str → Str → Result Identity
  check_signature key header claims signature = elim (crypto.decode_base64 signature) [
    | err e ↦ err invalid_signature
    | ok given ↦
        if str_eq (crypto.hmac key (header ++ (b'.' ∷ claims))) given
        then check_claims claims
        else err invalid_signature
  ]

  unfoldable pub check_header : Dict Str → Str → Str → Str → Result Identity
  check_header keys header claims signature = elim (crypto.decode_base64 header) [
    | err e ↦ err e
    | ok text ↦ elim (crypto.header_of text) [
      | none ↦ err unsupported_algorithm
      | some h ↦
          if not (str_eq h.alg (bytes "HS256"))
          then err unsupported_algorithm
          else let key = key_of keys h.kid in
            if is_empty key then err unknown_key_id else check_signature key header claims signature
    ]
  ]

  unfoldable pub verify_parts : Dict Str → List Str → Result Identity
  verify_parts keys (header ∷ claims ∷ signature ∷ []) = check_header keys header claims signature
  verify_parts keys _ = err invalid_jwt

  -- Verify
  unfoldable pub verify : Dict Str → Str → Result Identity
  verify keys token = verify_parts keys (split token)

  -- AuthenticateBearer
  unfoldable pub authenticate_bearer : Dict Str → Str → Result Identity
  authenticate_bearer keys header = elim (parse_bearer header) [
    | err e ↦ err e
    | ok token ↦ verify keys token
  ]

  -- The claims part of a token that gives the identity, and is not expired.
  pub record IsLive (part : Str) (id : Identity) : Type 0 where
    pub text : Str
    pub body : Claims
    pub decoded : crypto.decode_base64 part ≡ ok text
    pub body_read : crypto.claims_of text ≡ some body
    pub same_subject : id.subject ≡ body.sub
    pub same_tenant : id.tenant ≡ body.tenant
    pub same_roles : id.roles ≡ body.roles
    pub same_expiry : id.expires_at ≡ body.exp
    pub live : now < body.exp

  -- The three parts of a token that is signed with a key of the verifier.
  pub record IsSigned (keys : Dict Str) (parts : List Str) (id : Identity) : Type 0 where
    pub header : Str
    pub claims : Str
    pub signature : Str
    pub three : parts ≡ header ∷ claims ∷ signature ∷ []
    pub head_text : Str
    pub head : Header
    pub head_decoded : crypto.decode_base64 header ≡ ok head_text
    pub head_read : crypto.header_of head_text ≡ some head
    pub is_hs256 : head.alg ≡ bytes "HS256"
    pub known : is_empty (key_of keys head.kid) ≡ false
    pub signed :
        crypto.decode_base64 signature
        ≡ ok (crypto.hmac (key_of keys head.kid) (header ++ (b'.' ∷ claims)))
    pub is_live : IsLive claims id

  check_claims-eq-ok : (part : Str) (id : Identity) → check_claims part ≡ ok id → IsLive part id
  unfolding check_claims
  check_claims-eq-ok part id h = elim (Result-cases (crypto.decode_base64 part)) [
    | inr (e, bad) ↦ cc (rw (bad, check_claims) at h)
    | inl (text, decoded) ↦ elim (Option-cases (crypto.claims_of text)) [
      | inl bad ↦ cc (rw bad at (rw (decoded, check_claims) at h))
      | inr (c, found) ↦
          let h' = rw found at (rw (decoded, check_claims) at h) in
          elim (Bool-cases (c.exp == 0 || leb c.exp now)) [
            | inl old ↦ cc (rw old at h')
            | inr fresh ↦
                let e = rw fresh at h' in
                record {
                  text = text;
                  body = c;
                  decoded = decoded;
                  body_read = found;
                  same_subject = ground arith;
                  same_tenant = ground arith;
                  same_roles = ground arith;
                  same_expiry = ground arith;
                  live = ground arith;
                }
          ]
    ]
  ]

  check_signature-eq-ok :
      (key header claims signature : Str) (id : Identity)
      → check_signature key header claims signature ≡ ok id
      → (crypto.decode_base64 signature ≡ ok (crypto.hmac key (header ++ (b'.' ∷ claims))))
        × IsLive claims id
  unfolding check_signature
  check_signature-eq-ok key header claims signature id h =
      elim (Result-cases (crypto.decode_base64 signature)) [
        | inr (e, bad) ↦ cc (rw (bad, check_signature) at h)
        | inl (given, decoded) ↦
            let h' = rw (decoded, check_signature) at h in
            let mac = crypto.hmac key (header ++ (b'.' ∷ claims)) in
            elim (Bool-cases (str_eq mac given)) [
              | inr differs ↦ cc (rw differs at h')
              | inl same ↦ (
                decoded ∙ ap ok (sym ((str_eq_iff mac given).0 same)),
                check_claims-eq-ok claims id (rw same at h'),
              )
            ]
      ]

  check_header-eq-ok :
      (keys : Dict Str) (header claims signature : Str) (id : Identity)
      → check_header keys header claims signature ≡ ok id
      → IsSigned keys (header ∷ claims ∷ signature ∷ []) id
  unfolding check_header
  check_header-eq-ok keys header claims signature id h =
      elim (Result-cases (crypto.decode_base64 header)) [
        | inr (e, bad) ↦ cc (rw (bad, check_header) at h)
        | inl (text, decoded) ↦ elim (Option-cases (crypto.header_of text)) [
          | inl bad ↦ cc (rw bad at (rw (decoded, check_header) at h))
          | inr (head, found) ↦
              let h' = rw found at (rw (decoded, check_header) at h) in
              elim (Bool-cases (str_eq head.alg (bytes "HS256"))) [
                | inr other ↦ cc (rw other at h')
                | inl hs ↦ elim (Bool-cases (is_empty (key_of keys head.kid))) [
                  | inl unknown ↦ cc (rw unknown at (rw hs at h'))
                  | inr known ↦
                      let (signed, is_live) =
                        check_signature-eq-ok (key_of keys head.kid) header claims signature id
                          (rw known at (rw hs at h')) in
                      record {
                        header = header;
                        claims = claims;
                        signature = signature;
                        three = refl;
                        head_text = text;
                        head = head;
                        head_decoded = decoded;
                        head_read = found;
                        is_hs256 = (str_eq_iff head.alg (bytes "HS256")).0 hs;
                        known = known;
                        signed = signed;
                        is_live = is_live;
                      }
                ]
              ]
        ]
      ]

  verify_parts-eq-ok :
      (keys : Dict Str) (parts : List Str) (id : Identity)
      → verify_parts keys parts ≡ ok id
      → IsSigned keys parts id
  unfolding verify_parts
  verify_parts-eq-ok keys (header ∷ claims ∷ signature ∷ []) id h =
      check_header-eq-ok keys header claims signature id h
  verify_parts-eq-ok keys _ id h = cc

  -- A token that is accepted has three parts, a header that says HS256 and names a key of the
  -- verifier, the signature of header and claims under that key, and claims whose `exp` lies ahead;
  -- the identity has the subject, the tenant, the roles and the expiry of those claims.
  pub verify-IsSigned :
      (keys : Dict Str) (token : Str) (id : Identity)
      → verify keys token ≡ ok id
      → IsSigned keys (split token) id
  unfolding verify
  verify-IsSigned keys token id h = verify_parts-eq-ok keys (split token) id h
