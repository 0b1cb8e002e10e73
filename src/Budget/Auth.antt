-- ===== src/Budget/Auth.antt =====
-- `authenticate` and its cookie-side counterparts (auth.py). A header is its code points.
use acs_base_model_api.Base.{
  ℕ, ◌-◌, String, Bool, not, ◌&&◌, Option, none, some, is_some, List, [], ◌∷◌, map, ltb, leb,
  nat_eq, string_eq, ◌==◌, if◌then◌else◌,
}
use acs_base_model_api.Base.Dict
use acs_base_model_api.Base.Dict.{Dict}
use acs_base_model_api.Base.Lists.{select, contains}
use acs_base_model_api.Base.Sort.{sort_by}
use acs_base_model_api.Base.Text.{Text, codes, to_lower, strip_prefix, strip}
use acs_base_model_api.Keys.{parse_prefix}
use acs_base_model_api.Budget.Store.{Date, ApiKey, User, Db, find}
use acs_base_model_api.Budget.Caller.{AuthedCaller}
use acs_base_model_api.Budget.Usage.{UsageState, load_usage_state}

-- what `_raise_auth_error` logs and raises, by its `error_kind`
pub data AuthKind : Type 0 where
  missing_authorization invalid_api_key key_revoked key_disabled : AuthKind
  account_suspended account_not_approved scope_denied : AuthKind

pub record AuthError : Type 0 where
  pub status_code : ℕ
  pub error_kind : AuthKind
  pub key_prefix : Option Text

pub data Result {ℓ} (A : Type ℓ) : Type ℓ where
  ok : A → Result A
  err : AuthError → Result A

-- the text after the first space
abbrev pub after_space : Text → Text
after_space [] = []
after_space (c ∷ t) = if c == b' ' then t else after_space t

unfoldable pub extract_bearer : Text → Option Text
extract_bearer auth = elim (strip_prefix (codes "bearer ") (map to_lower auth)) [
  | none ↦ none
  | some _ ↦ some (strip (after_space auth))
]

-- the database, and the process's cache of last-used writes
pub record AuthState : Type 0 where
  pub db : Db
  pub last_used_write : Dict ℕ ℕ

pub record Now : Type 0 where
  pub monotonic : ℕ
  pub wall : ℕ
  pub date : Date

abbrev pub scopes_of : ApiKey → List String
scopes_of k = elim k.scopes [ none ↦ [] | some s ↦ s ]

-- the caller that all three functions build
unfoldable pub make_caller : ApiKey → User → UsageState → AuthedCaller
make_caller k u usage = record {
  key_id = k.id;
  key_prefix = k.key_prefix;
  user_email = u.email;
  user_id = k.user_id;
  monthly_token_budget = k.monthly_token_budget;
  tokens_used_this_month = usage.tokens_used_this_month;
  daily_token_budget = k.daily_token_budget;
  tokens_used_today = usage.tokens_used_today;
  monthly_token_budget_total = u.monthly_token_budget_total;
  user_tokens_used_this_month = usage.user_tokens_used_this_month;
  monthly_input_token_budget = k.monthly_input_token_budget;
  monthly_output_token_budget = k.monthly_output_token_budget;
  input_tokens_used_this_month = usage.input_tokens_used_this_month;
  output_tokens_used_this_month = usage.output_tokens_used_this_month;
  monthly_activation_budget = k.monthly_activation_budget;
  monthly_harvest_budget = k.monthly_harvest_budget;
}

-- the inner join of a key row with its owner
abbrev pub with_owner : Db → ApiKey → Option (ApiKey × User)
with_owner db k = elim (find (λ u. k.user_id == u.id) db.users) [
  | none ↦ none
  | some u ↦ some (k, u)
]

unfoldable pub find_row : Db → String → Option (ApiKey × User)
find_row db key_hash = elim (find (λ k. k.key_hash == key_hash) db.keys) [
  | none ↦ none
  | some k ↦ with_owner db k
]

abbrev pub refuse : ℕ → AuthKind → ApiKey → Option AuthError
refuse code kind k =
    some (record { status_code = code; error_kind = kind; key_prefix = some (codes k.key_prefix) })

-- the gates that a found key passes, in order
unfoldable pub refusal : String → ApiKey → User → Option AuthError
refusal required_scope k u =
    if is_some k.revoked_at
    then refuse 401 key_revoked k
    else if is_some k.disabled_at
    then refuse 401 key_disabled k
    else if not (u.status == "approved")
    then (if u.status == "suspended"
        then refuse 401 account_suspended k
        else refuse 401 account_not_approved k)
    else if not (contains required_scope (scopes_of k))
    then refuse 403 scope_denied k
    else none

abbrev pub stamp_used : ℕ → ℕ → ApiKey → ApiKey
stamp_used id wall k = if k.id == id then record k { last_used_at = some wall } else k

-- the throttled last-used-at update
unfoldable pub touch_key : Now → ℕ → ℕ → AuthState → AuthState
touch_key now throttle id st =
    let prev : ℕ = elim (Dict.get id st.last_used_write) [ none ↦ 0 | some t ↦ t ] in
    if ltb throttle (now.monotonic - prev)
    then record {
      db = record st.db { keys = map (stamp_used id now.wall) st.db.keys };
      last_used_write = Dict.set id now.monotonic st.last_used_write;
    }
    else st

unfoldable pub admit :
    Now → ℕ → String → ApiKey × User → AuthState → Result AuthedCaller × AuthState
admit now throttle required_scope (k, u) st = elim (refusal required_scope k u) [
  | some e ↦ (err e, st)
  | none ↦ (
    ok (
        make_caller k u
          (load_usage_state (touch_key now throttle k.id st).db now.date k.id k.user_id)),
    touch_key now throttle k.id st,
  )
]

-- SHA-256 of the key, as stored: a parameter
module _ (hash_key : Text → String) where
  unfoldable pub authenticate :
      Now → ℕ → String → Text → AuthState → Result AuthedCaller × AuthState
  authenticate now throttle required_scope header st = elim (extract_bearer header) [
    | none ↦ (
      err (record { status_code = 401; error_kind = missing_authorization; key_prefix = none }),
      st,
    )
    | some plaintext ↦ elim (find_row st.db (hash_key plaintext)) [
      | none ↦ (
        err (record {
          status_code = 401;
          error_kind = invalid_api_key;
          key_prefix = parse_prefix plaintext;
        }),
        st,
      )
      | some row ↦ admit now throttle required_scope row st
    ]
  ]

-- the WHERE clauses on the key and its owner that both cookie-side functions share
unfoldable pub is_usable : ApiKey × User → Bool
is_usable (k, u) =
    not (is_some k.revoked_at) && (not (is_some k.disabled_at) && u.status == "approved")

abbrev pub join_users : Db → List ApiKey → List (ApiKey × User)
join_users db [] = []
join_users db (k ∷ ks) = elim (with_owner db k) [
  | none ↦ join_users db ks
  | some row ↦ row ∷ join_users db ks
]

-- the scope check and the caller, for the first row of a query
unfoldable pub caller_of_row : Db → Date → List (ApiKey × User) → Option AuthedCaller
caller_of_row db today [] = none
caller_of_row db today ((k, u) ∷ _) =
    if not (contains "completions" (scopes_of k))
    then none
    else some (make_caller k u (load_usage_state db today k.id k.user_id))

abbrev pub newest_first : ApiKey × User → ApiKey × User → Bool
newest_first (a, _) (b, _) = leb b.created_at a.created_at

unfoldable pub primary_authed_caller : Db → Date → ℕ → Option AuthedCaller
primary_authed_caller db today user_id = caller_of_row db today (
    sort_by newest_first
      (select (λ row. row.0.user_id == user_id && is_usable row) (join_users db db.keys)))

unfoldable pub authed_caller_for_key : Db → Date → ℕ → ℕ → Option AuthedCaller
authed_caller_for_key db today user_id key_id = caller_of_row db today (
    select (λ row. row.0.id == key_id && (row.0.user_id == user_id && is_usable row))
      (join_users db db.keys))
