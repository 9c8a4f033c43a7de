-- ===== src/Errors.antt =====
-- Go's `error` values, and the result of a call that may fail. An error of code outside the
-- repository is `external` with a number that tells it apart; the errors that the program makes
-- have one constructor for each `fmt.Errorf` or `errors.New`, with the wrapped error (`%w`) if any.
use cortex_go.Prelude.{ℕ, ◌≡◌, refl, ◌⊎◌, inl, inr, Str}

pub data Error : Type 0 where
  external : ℕ → Error
  -- internal/memory
  summary_required : Error
  summarize_failed : Error → Error
  budget_not_positive : Error
  cannot_fit : ℕ → Error
  session_required : Error
  path_required : Error
  encode_failed : Error → Error
  directory_failed : Error → Error
  write_failed : Error → Error
  rename_failed : Error → Error
  read_failed : Error → Error
  decode_failed : Error → Error
  temporary_failed : Error → Error
  secure_failed : Error → Error
  close_failed : Error → Error
  fact_required : Error
  sensitive_disabled : Error
  value_too_long : Error
  -- internal/agent
  persist_failed : Error → Error
  input_too_large : Error
  summary_too_large : ℕ → Error
  limit_too_small : Error
  too_many_rounds : ℕ → Error
  call_without_id : Error
  duplicate_call_id : Str → Error
  bad_call_type : Str → Error
  call_without_name : Str → Error
  bad_arguments : Str → Error
  not_authorized : Str → Error → Error
  deadline_exceeded : Error
  -- internal/provider
  base_url_required : Error
  delta_required : Error
  http_status : Str → ℕ → Str → Error
  decode_response : Error → Error
  provider_message : Str → Error
  no_choices : Error
  decode_event : Error → Error
  input_required : Error
  wrong_count : ℕ → ℕ → Error
  invalid_embedding : Error
  missing_embedding : ℕ → Error
  unsupported_provider : Str → Error
  settings_required : Error
  -- internal/knowledge
  document_id_required : Error
  content_required : Error
  bad_overlap : Error
  slice_out_of_range : Error
  chunk_required : Error
  query_empty : Error
  length_mismatch : Error
  zero_vector : ℕ → Error
  zero_query : Error
  bad_alpha : Error
  embed_failed : Error → Error
  embedder_required : Error
  embed_query_failed : Error → Error
  query_vectors : ℕ → Error
  invalid_entry : Str → Error
  file_path_required : Error
  unsupported_extension : Str → Error
  parse_failed : Str → Error → Error
  file_empty : Error
  index_not_configured : Error
  entry_missing : Str → Error
  command_failed : Error → Str → Error
  ocr_required : Error
  ocr_failed : Str → Error → Error
  render_failed : Error → Error
  no_pages : Error
  soffice_required : Error
  convert_failed : Error → Error
  converted_missing : Error → Error
  -- internal/tool
  not_registered : Str → Error
  already_registered : Str → Error
  bad_tool_name : Error
  no_description : Str → Error
  no_handler : Str → Error
  bad_schema : Str → Error → Error
  root_not_object : Str → Error
  invalid_input : Str → Error → Error
  invoke_failed : Str → Error → Error
  panicked : Error
  schema_not_json : Error
  decode_schema : Error → Error
  schema_not_object : Error → Error
  unsupported_keyword : Str → Error
  bad_property : Str → Error → Error
  input_not_json : Error
  decode_input : Error → Error
  bad_type : Str → Str → Error
  bad_enum : Str → Error
  must_be_object : Str → Error
  must_be_array : Str → Error
  member_required : Str → Str → Error
  member_not_allowed : Str → Str → Error
  invalid_output : Str → Error
  -- internal/security
  tenant_required : Error
  replace_unsupported : Error
  index_unfiltered : Error
  invalid_jwt : Error
  unsupported_algorithm : Error
  unknown_key_id : Error
  invalid_signature : Error
  invalid_claims : Error
  token_expired : Error
  missing_bearer : Error
  empty_bearer : Error
  file_missing : Error
  only_https : Error
  host_required : Error
  private_address : Error
  invalid_upload_path : Error
  upload_type : Str → Error
  upload_too_large : Error
  -- internal/reliability and internal/tasks
  request_quota : Str → Error
  token_quota : Str → Error
  cost_quota : Str → Error
  task_required : Error
  cron_dependencies : Error
  bad_cron_spec : Error
  canceled : Error
  -- internal/observability
  langfuse_incomplete : Error
  langfuse_failed : Error → Error
  langfuse_status : ℕ → Error
  -- the fuel of a model ran out; no call of the program gives it
  out_of_fuel : Error

pub data Result {ℓ} (A : Type ℓ) : Type ℓ where
  ok : A → Result A
  err : Error → Result A

infixl 5 ◌>>=◌
abbrev pub ◌>>=◌ {ℓ κ} : {A : Type ℓ} {B : Type κ} → Result A → (A → Result B) → Result B
ok a >>= f = f a
err e >>= f = err e

pub Result-cases {ℓ} :
    {A : Type ℓ} (r : Result A) → ((a : A) × (r ≡ ok a)) ⊎ ((e : Error) × (r ≡ err e))
Result-cases (ok a) = inl (a, refl)
Result-cases (err e) = inr (e, refl)
