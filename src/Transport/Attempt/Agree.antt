-- ===== src/Transport/Attempt/Agree.antt =====
-- The three senders told apart and compared.
use yomins_agent.Go.Text.{Bytes, codes}
use yomins_agent.Prelude.{
  ℕ, ◌≡◌, true, false, Option, some, List, [], arith, length, ◌≤◌, ◌<◌, ◌⊎◌, ◌↔◌, ◌+◌,
}
use yomins_agent.Transport.Session.{Session, RejectedError, is_paused, reject, next_pause}
use yomins_agent.Transport.Response.{Response}
use yomins_agent.Transport.Attempt.{
  Answer, responds, Endpoint, Wire, permanent, transient, refused, rejected, paused, bad_batch,
  server_status, encode, do_metrics, do_post, post,
}

module _ (gzip : Bytes → Option Bytes) where
  -- Of a response, `Post` refuses what `doPost` gives up on as a bad batch, and besides it every
  -- status below 200 and from 300 to 399, which `doPost` and `do` take for transient.
  pub refused_iff_bad_batch :
      (ep : Endpoint) (check now : ℕ) (resp : Response) (path content_type : Bytes)
      (headers : List (Bytes × Bytes)) (payload : Bytes) (w : Wire)
      → is_paused check w.session ≡ false
      → (((post gzip ep check now (responds resp) path content_type headers payload w).1
            ≡ refused resp.status)
          ↔ (((do_post gzip ep now (responds resp) payload w).1 ≡ permanent (bad_batch resp.status))
              ⊎ ((do_post gzip ep now (responds resp) payload w).1
                  ≡ transient (server_status resp.status))
                × (resp.status < 400)))
        × ((do_post gzip ep now (responds resp) payload w).1 ≡ transient (server_status resp.status)
            ↔ (do_metrics gzip ep now (responds resp) payload w).1
              ≡ transient (server_status resp.status))
  unfolding do_metrics do_post post
  refused_iff_bad_batch ep check now resp path ct headers payload w open_now = ground arith

  -- A body goes out compressed only to a server that has offered gzip, only from 1024 bytes on,
  -- and is then what the coder made of the payload; otherwise the payload goes out as it is.
  pub encode_cases :
      (s : Session) (payload : Bytes)
      → ((encode gzip s payload ≡ (payload, []))
          ⊎ (z : Bytes) × (encode gzip s payload ≡ (z, codes "gzip"))
            × (gzip payload ≡ some z)
            × (s.gzip_ok ≡ true)
            × (1024 ≤ length payload))
  unfolding encode
  encode_cases s payload = ground arith

  -- Once the server has refused this agent, posts that are checked before the pause ends send
  -- nothing and change nothing; the pause is the server's Retry-After if that is positive.
  pub post_paused_after_rejection :
      (ep : Endpoint) (check now : ℕ) (a : Answer) (path ct : Bytes)
      (headers : List (Bytes × Bytes)) (payload : Bytes) (w w' : Wire) {e : RejectedError}
      → post gzip ep check now a path ct headers payload w ≡ (w', rejected e)
      → (later now' : ℕ) (a' : Answer) (path' ct' : Bytes) (headers' : List (Bytes × Bytes))
        (payload' : Bytes)
      → later < now + next_pause w.session.pause e.retry_after
      → post gzip ep later now' a' path' ct' headers' payload' w' ≡ (w', paused)
  unfolding post reject is_paused
  post_paused_after_rejection ep check now a path ct hs payload w w' e later now' a' p' ct' hs' pl'
        h =
      ground arith
