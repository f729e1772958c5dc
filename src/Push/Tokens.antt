-- ===== src/Push/Tokens.antt =====
-- The table push_tokens under upsert_token (service/push/service.py).
use igrill_remote_server.Prelude.{
  String, ◌≡◌, ◌≢◌, refl, sym, ◌∙◌, is_some, inl, inr, true, false, Option, none, some, List, [],
  ◌∷◌, ◌++◌, arith, str_eq_refl, eq_iff, Bool-cases, first_where, any_where, update_where,
  first_where-update_where, first_where-update_where_ne, first_where-append_new, first_where-append,
  any_where-eq-is_some,
}
use igrill_remote_server.Push.{PushToken, token_is, coalesce, refresh_token, upsert_token}

-- The Live Activity token of a device; `none` too where the device is not there.
abbrev pub la_token : String → List PushToken → Option String
la_token t l = elim (first_where (token_is t) l) [ none ↦ none | some r ↦ r.live_activity_token ]

refresh_token-token :
    (u : String) (la : Option String) (ts : String) (r : PushToken)
    → token_is u (refresh_token la ts r) ≡ token_is u r
unfolding refresh_token
refresh_token-token u la ts r = refl

module _ (t : String) (la : Option String) (ts : String) (l : List PushToken) where
  abbrev new : PushToken
  new = record { token = t; live_activity_token = la; created_at = ts; updated_at = ts }

  known : any_where (token_is t) l ≡ true → is_some (first_where (token_is t) l) ≡ true
  known e = sym (any_where-eq-is_some (token_is t) l) ∙ e

  unknown : any_where (token_is t) l ≡ false → is_some (first_where (token_is t) l) ≡ false
  unknown e = sym (any_where-eq-is_some (token_is t) l) ∙ e

  -- After a registration the device has the Live Activity token that came with it, or the one it
  -- had where none came; the row of every other device is as it was.
  pub upsert_token-la_token :
      (la_token t (upsert_token t la ts l) ≡ coalesce la (la_token t l))
      × ((u : String)
          → t ≢ u
          → first_where (token_is u) (upsert_token t la ts l) ≡ first_where (token_is u) l)
  unfolding upsert_token refresh_token
  upsert_token-la_token = elim (Bool-cases (any_where (token_is t) l)) [
    | inl e ↦ rw e (
      elim la
          as (λ (x : Option String).
            la_token t (update_where (token_is t) (refresh_token x ts) l)
            ≡ coalesce x (la_token t l)) [
              | none ↦ ground (
                arith,
                first_where-update_where (token_is t) (refresh_token none ts) l (λ r. refl),
                known e,
              )
              | some x ↦ ground (
                arith,
                first_where-update_where (token_is t) (refresh_token (some x) ts) l (λ r. refl),
                known e,
              )
            ],
      λ u ne.
          first_where-update_where_ne (token_is t) (token_is u) (refresh_token la ts) l
            (λ r f. ground (arith, f, ne, eq_iff r.token u, eq_iff r.token t))
            (λ r f.
              ground
                (arith, f, ne, eq_iff r.token u, eq_iff r.token t, refresh_token-token t la ts r)),
    )
    | inr e ↦ rw e (
      elim la
          as (λ (x : Option String).
            la_token t (
              l
              ++ record { token = t; live_activity_token = x; created_at = ts; updated_at = ts }
                ∷ [])
            ≡ coalesce x (la_token t l)) [
              | none ↦ ground (
                arith,
                first_where-append_new (token_is t) l
                    (record {
                      token = t;
                      live_activity_token = none;
                      created_at = ts;
                      updated_at = ts;
                    })
                    e (str_eq_refl t),
                unknown e,
              )
              | some x ↦ ground (
                arith,
                first_where-append_new (token_is t) l
                    (record {
                      token = t;
                      live_activity_token = some x;
                      created_at = ts;
                      updated_at = ts;
                    })
                    e (str_eq_refl t),
                unknown e,
              )
            ],
      λ u ne. ground (arith, first_where-append (token_is u) l (new ∷ []), ne, eq_iff t u),
    )
  ]
