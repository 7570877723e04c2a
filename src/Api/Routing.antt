-- ===== src/Api/Routing.antt =====
-- The routes of New and handleUI and handleStatus of internal/api/server.go. Paths that
-- http.ServeMux would redirect to their clean form are not modelled.
use digital_ghost.Prelude.{ℕ, Text, not, text_eq, lit, if◌then◌else◌}
use digital_ghost.Prelude.Result.{Result, ok, err}
use digital_ghost.Filter.Engagement.{FloatMath}
use digital_ghost.Storage.Time.{Time}
use digital_ghost.Storage.Encrypt.{Crypto}
use digital_ghost.Storage.JsonStore.{IndexCodec, StoreError}
use digital_ghost.Storage.VectorStore.{NodeCodec, Store, stats}
use digital_ghost.Storage.Similarity.{VectorMath}
use digital_ghost.Api.Types.{Request, Server, status, Response, not_found, html, json, with_store}
use digital_ghost.Api.Search.{SearchEnv, handle_query}
use digital_ghost.Api.Chat.{handle_chat}
use digital_ghost.Api.Deletion.{DeleteEnv, handle_delete}
use digital_ghost.Api.Timeline.{handle_timeline}

pub data Route : Type 0 where
  ui query_route status_route chat_route delete_route timeline_route : Route

-- The pattern that http.ServeMux finds: the path itself, or the root for all other paths.
unfoldable pub route_of : Text → Route
unfolding lit text_eq
route_of path =
    if text_eq path (lit "/api/query")
    then query_route
    else if text_eq path (lit "/api/status")
    then status_route
    else if text_eq path (lit "/api/chat")
    then chat_route
    else if text_eq path (lit "/api/delete")
    then delete_route
    else if text_eq path (lit "/api/timeline")
    then timeline_route
    else ui

-- What a request meets.
pub record ApiEnv (F : Type 0) : Type 0 where
  pub search : SearchEnv F
  pub deletion : DeleteEnv

unfoldable pub handle_ui : {F : Type 0} → Server F → Text → Response F
unfolding lit text_eq
handle_ui s path = if not (text_eq path (lit "/")) then not_found else html s.ui_html

-- A count that fails is answered as an empty store.
abbrev pub status_reply : {F : Type 0} → Text → Result StoreError (ℕ × Time) → Response F
status_reply model (err e) = json 200 (status 0 model 0)
status_reply model (ok (n, last)) = json 200 (status n model last)

module _ {F : Type 0} (C : Crypto) (K : IndexCodec) (N : NodeCodec F) (M : FloatMath F)
    (V : VectorMath F) (clock : Time → Text) (error_text : StoreError → Text) where
  unfoldable pub handle_status : Server F → Response F
  handle_status s = status_reply s.model (stats C K s.store)

  abbrev pub with_deletion : Server F → Store F × Response F → Server F × Response F
  with_deletion s (store, response) = (with_store s store, response)

  unfoldable pub serve_route : Route → ApiEnv F → Request → Server F → Server F × Response F
  unfolding handle_ui handle_status
  serve_route ui env r s = (s, handle_ui s r.path)
  serve_route query_route env r s = (s, handle_query C K N M V env.search r.q s.store)
  serve_route status_route env r s = (s, handle_status s)
  serve_route chat_route env r s =
      (s, (handle_chat C K N M clock V env.search r.q s.store).response)
  serve_route delete_route env r s =
      with_deletion s (handle_delete C K s.csrf_token env.deletion r s.store)
  serve_route timeline_route env r s = (s, handle_timeline C K N error_text r s.store)

  unfoldable pub serve : ApiEnv F → Request → Server F → Server F × Response F
  unfolding route_of serve_route
  serve env r s = serve_route (route_of r.path) env r s
