-- ===== src/Api/Access.antt =====
-- Which requests change the store.
use digital_ghost.Prelude.{
  ◌+◌, ◌<◌, ◌≡◌, ◌≢◌, refl, sym, ap, ◌∙◌, ◌⊎◌, inl, inr, Text, Bool, true, false, not, text_eq,
  text_eq_iff, List, [], ◌∷◌, All, length, some, arith, lit, Bool-cases, Option-cases,
}
use digital_ghost.Filter.Engagement.{FloatMath}
use digital_ghost.Storage.Time.{Time}
use digital_ghost.Storage.Hex.{hex_encode}
use digital_ghost.Storage.Encrypt.{Crypto}
use digital_ghost.Storage.JsonStore.{IndexCodec, StoreError}
use digital_ghost.Storage.VectorStore.{NodeCodec, Store, delete_range}
use digital_ghost.Storage.Similarity.{VectorMath}
use digital_ghost.Api.Types.{Request, Server, new_server, with_store}
use digital_ghost.Api.Deletion.{DeleteEnv, second, range_start, deletion, handle_delete}
use digital_ghost.Api.Routing.{
  ApiEnv, Route, ui, query_route, status_route, chat_route, delete_route, timeline_route, route_of,
  serve_route, serve,
}

-- A deletion by POST with the token of the server and one of the four ranges.
pub record IsAuthorized (env : DeleteEnv) (r : Request) (token : Text) (after : Time) : Type 0 where
  pub path : r.path ≡ lit "/api/delete"
  pub method : r.method ≡ lit "POST"
  pub header : r.csrf_header ≡ token
  pub range : range_start env r.range ≡ some after

not-false : (b : Bool) → not b ≡ false → b ≡ true
not-false true h = refl
not-false false h = cc

route_of-delete : (path : Text) → route_of path ≡ delete_route → path ≡ lit "/api/delete"
unfolding route_of
route_of-delete path h = elim (Bool-cases (text_eq path (lit "/api/delete"))) [
  | inl e ↦ (text_eq_iff path (lit "/api/delete")).0 e
  | inr e ↦ absurd (ground arith)
]

module _ {F : Type 0} (C : Crypto) (K : IndexCodec) where
  -- The request is refused and nothing changes, or it is authorized and its range is deleted.
  handle_delete-cases :
      (token : Text) (env : DeleteEnv) (r : Request) (s : Store F)
      → ((handle_delete C K token env r s).0 ≡ s)
        ⊎ (after : Time) × (r.method ≡ lit "POST")
          × (r.csrf_header ≡ token)
          × (range_start env r.range ≡ some after)
          × ((handle_delete C K token env r s).0
              ≡ (deletion s (delete_range C K env.removes after (env.now + second) s)).0)
  unfolding handle_delete
  handle_delete-cases token env r s = elim (Bool-cases (not (text_eq r.method (lit "POST")))) [
    | inl m ↦ inl (rw m refl)
    | inr m ↦ elim (Bool-cases (not (text_eq r.csrf_header token))) [
      | inl t ↦ inl (rw (m, t) refl)
      | inr t ↦ elim (Option-cases (range_start env r.range)) [
        | inl a ↦ inl (rw (m, t, a) refl)
        | inr (after, a) ↦ inr (
          after,
          (text_eq_iff r.method (lit "POST")).0 (not-false _ m),
          (text_eq_iff r.csrf_header token).0 (not-false _ t),
          a,
          rw (m, t, a) refl,
        )
      ]
    ]
  ]

module _ {F : Type 0} (C : Crypto) (K : IndexCodec) (N : NodeCodec F) (M : FloatMath F)
    (V : VectorMath F) (clock : Time → Text) (error_text : StoreError → Text) where
  -- What an authorized request leaves: the store without the range, and the rest of the server.
  abbrev pub after_deletion : DeleteEnv → Time → Server F → Server F
  after_deletion env after s =
      with_store s
        (deletion s.store (delete_range C K env.removes after (env.now + second) s.store)).0

  serve_route-IsAuthorized :
      (route : Route) (env : ApiEnv F) (r : Request) (s : Server F)
      → route_of r.path ≡ route
      → ((serve_route C K N M V clock error_text route env r s).0 ≡ s)
        ⊎ (after : Time) × IsAuthorized env.deletion r s.csrf_token after
          × ((serve_route C K N M V clock error_text route env r s).0
              ≡ after_deletion env.deletion after s)
  unfolding serve_route
  serve_route-IsAuthorized ui env r s e = inl refl
  serve_route-IsAuthorized query_route env r s e = inl refl
  serve_route-IsAuthorized status_route env r s e = inl refl
  serve_route-IsAuthorized chat_route env r s e = inl refl
  serve_route-IsAuthorized timeline_route env r s e = inl refl
  serve_route-IsAuthorized delete_route env r s e =
      elim (handle_delete-cases C K s.csrf_token env.deletion r s.store) [
        | inl same ↦ inl (ap (with_store s) same)
        | inr (after, m, t, a, q) ↦ inr (
          after,
          record { path = route_of-delete r.path e; method = m; header = t; range = a },
          ap (with_store s) q,
        )
      ]

  -- A request to the HTTP interface leaves the server as it is, unless it is a POST to
  -- /api/delete with the token of the server in its header and one of the four ranges: then the
  -- store is what the deletion of that range makes of it, and nothing else of the server changes.
  pub serve-IsAuthorized :
      (env : ApiEnv F) (r : Request) (s : Server F)
      → ((serve C K N M V clock error_text env r s).0 ≡ s)
        ⊎ (after : Time) × IsAuthorized env.deletion r s.csrf_token after
          × ((serve C K N M V clock error_text env r s).0 ≡ after_deletion env.deletion after s)
  unfolding serve
  serve-IsAuthorized env r s = serve_route-IsAuthorized (route_of r.path) env r s refl

  -- Requests one after the other.
  serve_all : List (ApiEnv F × Request) → Server F → Server F
  serve_all [] s = s
  serve_all ((env, r) ∷ rs) s = serve_all rs (serve C K N M V clock error_text env r s).0

  serve_all-same :
      (rs : List (ApiEnv F × Request)) (s : Server F)
      → s.csrf_token ≢ []
      → All (λ x. x.1.csrf_header ≡ []) rs
      → serve_all rs s ≡ s
  unfolding serve_all
  serve_all-same [] s t h = refl
  serve_all-same ((env, r) ∷ rs) s t (missing, h) = elim (serve-IsAuthorized env r s) [
    | inl same ↦ ap (serve_all rs) same ∙ serve_all-same rs s t h
    | inr (after, a, q) ↦ absurd (t (sym a.header ∙ missing))
  ]

hex_encode-ne-nil : (bytes : Text) → 0 < length bytes → hex_encode bytes ≢ []
unfolding hex_encode
hex_encode-ne-nil [] h e = absurd (omega arith)
hex_encode-ne-nil (b ∷ s) h e = cc

new_server-token :
    {F : Type 0} (random : Text) (html : Text) (store : Store F) (model : Text) (s : Server F)
    → 0 < length random
    → new_server (some random) html store model ≡ some s
    → s.csrf_token ≢ []
unfolding new_server
new_server-token random html store model s h e q = hex_encode-ne-nil random h (ground (arith, e, q))

module _ {F : Type 0} (C : Crypto) (K : IndexCodec) (N : NodeCodec F) (M : FloatMath F)
    (V : VectorMath F) (clock : Time → Text) (error_text : StoreError → Text) where
  -- A server that New made with 16 random bytes stays as it is through any sequence of requests
  -- that leave the header of the token out.
  serve_all-no_token :
      (random html : Text) (store : Store F) (model : Text) (s : Server F)
      (rs : List (ApiEnv F × Request))
      → length random ≡ 16
      → new_server (some random) html store model ≡ some s
      → All (λ x. x.1.csrf_header ≡ []) rs
      → serve_all C K N M V clock error_text rs s ≡ s
  serve_all-no_token random html store model s rs n e h =
      serve_all-same C K N M V clock error_text rs s
        (new_server-token random html store model s (omega (arith, n)) e) h
