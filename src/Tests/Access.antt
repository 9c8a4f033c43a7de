-- ===== src/Tests/Access.antt =====
-- The gate, the limiter, roles, keys, tokens and sessions of the API, on small inputs.
use cortex_go.Errors.{Error, external, upload_too_large, ok}
use cortex_go.Security.Keys.{
  ReadsBack, load_keys-save_keys, load_keys, save_keys, KeyCodec, SaveConditions,
}
use cortex_go.Security.Uploads.{
  any_internal, check_addresses, validate_remote_url-IsPublic, IsPublic, check_host,
  validate_upload, Resolver, validate_remote_url, RemoteUrl,
}
use cortex_go.Security.Permissions
use cortex_go.Security.Permissions.{allow_permission-grant}
use cortex_go.Api.Gate.{
  Refusal, Request, Server, Decision, forward, gate, identify, credential, bearer_identity,
  wants_credential, known_tenant, first_identity, second_identity, resolved, resolve, is_denied,
  limit, admit, header_tenant_resolver,
}
use cortex_go.Api.Rbac.{
  Tenant, Rbac, grant, permissions_of, add_permissions, has_permission, any_role,
}
use cortex_go.Api.Rbac
use cortex_go.Api.Rbac.Grants.{member}
use cortex_go.Api.Limiter.{Limiter, new_limiter, hits_of, recent, retry_after}
use cortex_go.Api.Limiter
use cortex_go.Api.Limiter.Window.{Spaced, Ascending, accepted, accepted-Spaced}
use cortex_go.Api.Gate.Decisions.{IsCredited, gate-IsCredited}
use cortex_go.Api.Chat.{ChatMessage, chat_input, chat_session, last_user}
use cortex_go.Security.Identities.{
  Identity, put_key, revoke, authenticate, parse_bearer, without_nul, sanitize_prompt,
}
use cortex_go.Security.Jwt.{
  Crypto, split_from, split, rotate, new_verifier, key_of, check_claims, check_signature,
  check_header, verify_parts, verify, IsSigned, verify-IsSigned,
}
use cortex_go.Security.Tenants.Isolation.{NoColon}
use cortex_go.Prelude.{
  ℕ, ◌≡◌, refl, sym, ◌⊎◌, true, false, Option, none, some, List, [], ◌∷◌, arith, is_some, Str,
  bytes, str_eq, has_prefix, trim_space, Dict, lookup, put, remove, trim_slashes, from_last,
  has_slash, extension, last_part, base, pos,
}

program : Unit {0}
unfolding grant permissions_of add_permissions has_permission any_role Rbac.allow member new_limiter
    hits_of recent retry_after Limiter.allow accepted gate identify credential bearer_identity
    wants_credential known_tenant first_identity second_identity resolved resolve is_denied limit
    admit header_tenant_resolver chat_input chat_session last_user put_key revoke authenticate
    parse_bearer without_nul sanitize_prompt split_from split rotate new_verifier key_of
    check_claims check_signature check_header verify_parts verify lookup put remove str_eq
    has_prefix trim_space
program = tt

abbrev acme : Str
acme = bytes "acme"

abbrev other : Str
other = bytes "other"

abbrev ann : Identity
ann = record { subject = bytes "ann"; tenant = acme; roles = bytes "dev" ∷ []; expires_at = 0 }

abbrev keys : Dict Identity
keys = (bytes "k", ann) ∷ []

abbrev request : Request
request = record {
  path = bytes "/v1/chat";
  api_key = bytes "k";
  authorization = [];
  tenant_id = acme;
}

abbrev two_hits : Limiter
two_hits = record { limit = 2; window = 10; hits = [] }

abbrev roles : Rbac
roles = grant (bytes "dev") (bytes "chat" ∷ []) []

abbrev server : Server
server = record {
  authenticate = none;
  api_keys = some (authenticate (λ k. k) 0 keys);
  jwt = none;
  resolve_tenant = some header_tenant_resolver;
  authorizer = some (Rbac.allow roles);
  limiter = some two_hits;
}

abbrev caller : Tenant
caller = record { id = acme; roles = bytes "dev" ∷ [] }

server_wants : wants_credential server ≡ true
unfolding program
server_wants = refl

admitted : (gate server request 5).0 ≡ forward caller
unfolding program
admitted = refl

gate-IsCredited_example : IsCredited server request caller × (is_denied server caller ≡ false)
gate-IsCredited_example = gate-IsCredited server request 5 caller server_wants admitted

-- A key of tenant "acme" with a header that names another tenant is refused.
abbrev stray : Request
stray = record request { tenant_id = other }

stray_refused : (gate server stray 5).0 ≡ Decision.refuse Refusal.forbidden
unfolding program
stray_refused = refl

abbrev know_ann : Request → Option Identity
know_ann r = some ann

abbrev open_server : Server
open_server = record {
  authenticate = some know_ann;
  api_keys = none;
  jwt = none;
  resolve_tenant = some header_tenant_resolver;
  authorizer = none;
  limiter = none;
}

stray_resolved : header_tenant_resolver stray ≡ some (record { id = other; roles = [] })
unfolding program
stray_resolved = refl

open_wants : wants_credential open_server ≡ false
unfolding program
open_wants = refl

abbrev hits : List (Str × ℕ)
hits = (acme, 1) ∷ (acme, 2) ∷ (other, 3) ∷ (acme, 4) ∷ (acme, 12) ∷ []

hits_accepted : accepted acme two_hits hits ≡ 1 ∷ 2 ∷ 12 ∷ []
unfolding program
hits_accepted = refl

hits-Ascending : Ascending 0 hits
hits-Ascending = (omega arith, (omega arith, (omega arith, (omega arith, (omega arith, tt)))))

accepted-Spaced_example :
    Spaced 2 10 (accepted acme (record { limit = 2; window = 10; hits = [] }) hits)
accepted-Spaced_example = accepted-Spaced acme 2 10 0 hits hits-Ascending

-- Base64 and the signature are the identity and the message here.
abbrev crypto : Crypto
crypto = record {
  decode_base64 = ok;
  header_of = λ s. some (record { alg = bytes "HS256"; kid = bytes "default" });
  claims_of = λ s. some (record { sub = bytes "ann"; tenant = acme; roles = []; exp = 100 });
  hmac = λ k m. bytes "s";
}

abbrev ann_token : Identity
ann_token = record { subject = bytes "ann"; tenant = acme; roles = []; expires_at = 100 }

verified : verify crypto 5 (new_verifier (bytes "secret")) (bytes "h.c.s") ≡ ok ann_token
unfolding program
verified = refl

verify-IsSigned_example :
    IsSigned crypto 5 (new_verifier (bytes "secret")) (split (bytes "h.c.s")) ann_token
verify-IsSigned_example =
    verify-IsSigned crypto 5 (new_verifier (bytes "secret")) (bytes "h.c.s") ann_token verified

abbrev user_says : List ChatMessage
user_says = (record { role = bytes "user"; content = bytes "hi" }) ∷ []

chosen : chat_input (bytes " ") user_says ≡ some (bytes "hi")
unfolding program
chosen = refl

acme-NoColon : NoColon acme
acme-NoColon = (λ e. cc e, (λ e. cc e, (λ e. cc e, (λ e. cc e, tt))))

acme_named : str_eq acme (bytes "default") ≡ false
unfolding program
acme_named = refl

-- Nobody's roles are asked for a permission of "admin".
abbrev nobody : Identity
nobody = record { subject = []; tenant = acme; roles = []; expires_at = 0 }

nobody_allowed :
    Permissions.allow
      (Permissions.grant (bytes "admin") (bytes "keys") (bytes "write") [])
      nobody
      (bytes "keys")
      (bytes "write")
    ≡ true
unfolding program Permissions.allow Permissions.grant
nobody_allowed = refl

-- A resolver that knows one host.
abbrev net : Resolver
net = record {
  parse = λ s. some (record { scheme = bytes "https"; host = s });
  lookup_ip =
      λ h. ok (record { is_private = false; is_loopback = false; is_link_local = false } ∷ []);
}

host_fine : validate_remote_url net (bytes "h") ≡ none
unfolding validate_remote_url check_host check_addresses any_internal str_eq
host_fine = refl

validate_remote_url-IsPublic_example :
    (u : RemoteUrl) × (net.parse (bytes "h") ≡ some u) × IsPublic net u
validate_remote_url-IsPublic_example = validate_remote_url-IsPublic net (bytes "h") host_fine

upload_fine :
    validate_upload (λ s. s) (λ p. ok 3) (bytes "a.md") (pos 2) (λ s. true) ≡ some upload_too_large
unfolding validate_upload base last_part trim_slashes from_last extension has_slash str_eq
upload_fine = refl

-- Keys in a file that holds them as they are.
abbrev key_codec : KeyCodec (Dict Identity)
key_codec = record { encode = ok; decode = ok }

abbrev all_well : SaveConditions (Dict Identity)
all_well = record {
  create = none;
  write = none;
  chmod = none;
  close = none;
  rename = none;
  unfinished = [];
}

key_codec-ReadsBack : ReadsBack key_codec (λ m. m)
key_codec-ReadsBack m t h = sym h

load_keys-save_keys_example :
    ((is_some (save_keys key_codec all_well keys none).0 ≡ true)
      × ((save_keys key_codec all_well keys none).1 ≡ none))
    ⊎ (((save_keys key_codec all_well keys none).0 ≡ none)
        × (((all_well.close ≡ none)
              × (load_keys key_codec none (save_keys key_codec all_well keys none).1 []
                  ≡ (none, keys)))
            ⊎ (((e : Error) × (all_well.close ≡ some e))
                × ((save_keys key_codec all_well keys none).1 ≡ some all_well.unfinished))))
load_keys-save_keys_example =
    load_keys-save_keys key_codec (λ m. m) all_well keys [] none key_codec-ReadsBack

-- A Close that fails is not reported: what was not finished stands under the path.
close_unreported :
    save_keys key_codec (record all_well { close = some (external 1) }) keys none ≡ (none, some [])
unfolding save_keys
close_unreported = refl
