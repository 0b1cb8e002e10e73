-- ===== src/Budget/Access.antt =====
-- Who gets in: the bearer-key path and the cookie-side paths of auth.py.
use mathlib.Core.Path.{fun_ext}
use acs_base_model_api.Base.{
  ℕ, String, ◌≡◌, ◌↔◌, refl, sym, ◌∙◌, ap, Bool, true, false, ◌&&◌, none, some, List, [], ◌∷◌, map,
  arith, inl, inr, eq_iff, nat_eq, string_eq, ◌==◌, Bool-cases, Option-cases,
}
use acs_base_model_api.Base.Lists.{All, select, contains}
use acs_base_model_api.Base.Text.{Text}
use acs_base_model_api.Budget.Store.{Date, ApiKey, User, Db, find, owner_of, is_owned_by}
use acs_base_model_api.Budget.Caller.{AuthedCaller}
use acs_base_model_api.Budget.Usage.{load_usage_state}
use acs_base_model_api.Budget.Auth.{
  ok, err, AuthError, AuthState, Now, extract_bearer, scopes_of, make_caller, with_owner, find_row,
  refusal, stamp_used, touch_key, admit, authenticate, is_usable, join_users, caller_of_row,
  authed_caller_for_key,
}

-- a key that is live, of an approved owner, with the scope
pub record MayUse (scope : String) (k : ApiKey) (u : User) : Type 0 where
  pub not_revoked : k.revoked_at ≡ none
  pub not_disabled : k.disabled_at ≡ none
  pub approved : u.status ≡ "approved"
  pub in_scope : contains scope (scopes_of k) ≡ true

refusal-none_iff :
    (scope : String) (k : ApiKey) (u : User) → (refusal scope k u ≡ none) ↔ MayUse scope k u
unfolding refusal
refusal-none_iff scope k u = ground (arith, eq_iff u.status "approved")

-- the caller that a granted request gets
abbrev pub caller_for : Now → ApiKey → User → Db → AuthedCaller
caller_for now k u db = make_caller k u (load_usage_state db now.date k.id k.user_id)

module _ (id wall : ℕ) where
  owner_of-stamp :
      (keys : List ApiKey) (key : ℕ)
      → owner_of (map (stamp_used id wall) keys) key ≡ owner_of keys key
  owner_of-stamp [] key = refl
  owner_of-stamp (k ∷ ks) key = ground (arith, owner_of-stamp ks key)

-- the last-used stamp changes nothing that usage is read from
load-touch_key :
    (now : Now) (throttle id key user : ℕ) (st : AuthState)
    → load_usage_state (touch_key now throttle id st).db now.date key user
      ≡ load_usage_state st.db now.date key user
unfolding touch_key load_usage_state
load-touch_key now throttle id key user st = ground (arith, owned_same)
  where
    owned_same :
        is_owned_by (map (stamp_used id now.wall) st.db.keys) user ≡ is_owned_by st.db.keys user
    owned_same = fun_ext λ key'. ground (arith, owner_of-stamp id now.wall st.db.keys key')

-- What `authenticate` answers on a row that it found.
admit_lem :
    (now : Now) (throttle : ℕ) (scope : String) (k : ApiKey) (u : User) (st : AuthState)
    → ((c : AuthedCaller) × ((admit now throttle scope (k, u) st).0 ≡ ok c)) ↔ MayUse scope k u
unfolding admit
admit_lem now throttle scope k u st = (
  λ (c, h). elim (Option-cases (refusal scope k u)) [
    | inl open_gate ↦ (refusal-none_iff scope k u).0 open_gate
    | inr (x, shut) ↦ absurd (ground (arith, shut, h))
  ],
  λ may. (
    make_caller k u (load_usage_state (touch_key now throttle k.id st).db now.date k.id k.user_id),
    ground (arith, (refusal-none_iff scope k u).1 may),
  ),
)

module _ (hash_key : Text → String) where
  -- `authenticate` accepts a request exactly when its header carries a bearer key whose hash is
  -- stored, neither revoked nor paused, owned by an approved account, and with the required scope.
  pub authenticate_iff :
      (now : Now) (throttle : ℕ) (scope : String) (header : Text) (st : AuthState)
      → ((c : AuthedCaller) × ((authenticate hash_key now throttle scope header st).0 ≡ ok c)) ↔ (
          (key : Text) × (k : ApiKey) × (u : User) × (extract_bearer header ≡ some key)
          × (find_row st.db (hash_key key) ≡ some (k, u))
          × MayUse scope k u)
  unfolding authenticate
  authenticate_iff now throttle scope header st = (
    λ (c, h). elim (Option-cases (extract_bearer header)) [
      | inl missing ↦ absurd (ground (arith, missing, h))
      | inr (key, read) ↦ elim (Option-cases (find_row st.db (hash_key key))) [
        | inl unknown ↦ absurd (ground (arith, read, unknown, h))
        | inr (row, found) ↦ (
          key,
          row.0,
          row.1,
          read,
          found,
          (admit_lem now throttle scope row.0 row.1 st).0 (c, ground (arith, read, found, h)),
        )
      ]
    ],
    λ (key, k, u, read, found, may).
        let granted = (admit_lem now throttle scope k u st).1 may in
        (granted.0, ground (arith, read, found, granted.1)),
  )

  -- A refused request changes neither the database nor the cache of last-used writes.
  pub refused_unchanged :
      (now : Now) (throttle : ℕ) (scope : String) (header : Text) (st : AuthState) {e : AuthError}
      → (authenticate hash_key now throttle scope header st).0 ≡ err e
      → (authenticate hash_key now throttle scope header st).1 ≡ st
  unfolding authenticate admit
  refused_unchanged now throttle scope header st h = ground arith

-- no other key has this one's id
abbrev pub HasOwnId : ApiKey → List ApiKey → Type 0
HasOwnId k ks = All (λ j. (j.id == k.id) ≡ true → j ≡ k) ks

-- the filter of `authed_caller_for_key`
abbrev picks : ℕ → ℕ → ApiKey × User → Bool
picks user_id key_id row = row.0.id == key_id && (row.0.user_id == user_id && is_usable row)

module _ (db : Db) (today : Date) (k : ApiKey) (u : User) (user : ℕ)
    (own : with_owner db k ≡ some (k, u)) where
  skip_other :
      (j : ApiKey) (ks : List ApiKey)
      → (j.id == k.id) ≡ false
      → select (picks user k.id) (join_users db (j ∷ ks))
        ≡ select (picks user k.id) (join_users db ks)
  skip_other j ks other = ground arith

  none_picked :
      (ks : List ApiKey)
      → picks user k.id (k, u) ≡ false
      → HasOwnId k ks
      → select (picks user k.id) (join_users db ks) ≡ []
  none_picked [] out h = refl
  none_picked (j ∷ ks) out h = elim (Bool-cases (j.id == k.id)) [
    | inl same ↦ ground (arith, h.0 same, none_picked ks out h.1)
    | inr other ↦ skip_other j ks other ∙ none_picked ks out h.1
  ]

  same_key :
      (j : ApiKey) (ks : List ApiKey)
      → (j.id == k.id) ≡ true
      → find (λ i. i.id == k.id) (j ∷ ks) ≡ some k
      → j ≡ k
  same_key j ks same found = ground arith

  row_picked :
      (ks : List ApiKey)
      → picks user k.id (k, u) ≡ true
      → find (λ i. i.id == k.id) ks ≡ some k
      → caller_of_row db today (select (picks user k.id) (join_users db ks))
        ≡ caller_of_row db today ((k, u) ∷ [])
  unfolding caller_of_row
  row_picked [] it found = absurd (ground (arith, found))
  row_picked (j ∷ ks) it found = elim (Bool-cases (j.id == k.id)) [
    | inl same ↦ ground (arith, same_key j ks same found)
    | inr other ↦ rw (skip_other j ks other) (row_picked ks it (ground (arith, found, other)))
  ]

  caller_of_none : caller_of_row db today [] ≡ none
  unfolding caller_of_row
  caller_of_none = refl

  -- the gate of one row, on both sides of the filter
  row_gate :
      ((c : AuthedCaller) × (picks user k.id (k, u) ≡ true)
        × (caller_of_row db today ((k, u) ∷ []) ≡ some c))
      ↔ ((k.user_id ≡ user) × MayUse "completions" k u)
  unfolding caller_of_row is_usable
  row_gate = (
    λ (c, it, e). ground (arith, eq_iff u.status "approved", it, e),
    λ (mine, may). (
      caller_for_day,
      ground (arith, eq_iff u.status "approved", mine, may),
      ground (arith, may.in_scope),
    ),
  )
    where
      caller_for_day : AuthedCaller
      caller_for_day = make_caller k u (load_usage_state db today k.id k.user_id)

  -- For a key that the database holds under an id of its own, the cookie-side lookup accepts
  -- exactly the user who owns the key, under the same gates as the bearer path for the
  -- "completions" scope.
  pub cookie_iff :
      find (λ i. i.id == k.id) db.keys ≡ some k
      → HasOwnId k db.keys
      → ((c : AuthedCaller) × (authed_caller_for_key db today user k.id ≡ some c))
        ↔ ((k.user_id ≡ user) × MayUse "completions" k u)
  unfolding authed_caller_for_key
  cookie_iff found alone = elim (Bool-cases (picks user k.id (k, u))) [
    | inl it ↦ (
      λ (c, e). row_gate.0 (c, it, sym (row_picked db.keys it found) ∙ e),
      λ may. let r = row_gate.1 may in (r.0, row_picked db.keys it found ∙ r.2),
    )
    | inr out ↦ (
      λ (c, e). absurd (
          cc (sym e ∙ ap (caller_of_row db today) (none_picked db.keys out alone), caller_of_none)),
      λ may. absurd (cc (out, (row_gate.1 may).1)),
    )
  ]
