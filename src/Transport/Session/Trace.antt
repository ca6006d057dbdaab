-- ===== src/Transport/Session/Trace.antt =====
-- What a session remembers of the server's answers.
use yomins_agent.Prelude.{
  ℕ, ◌≡◌, refl, ap, ◌∙◌, List, [], ◌∷◌, ◌++◌, Bool, true, false, ◌||◌, arith,
}
use yomins_agent.Transport.Session.{Session, RejectedError, new_session, reject, accepted}
use yomins_agent.Transport.Session.Pause.{reject_all}

-- An answer that the session is told of.
pub data Verdict : Type 0 where
  takes : Bool → Verdict
  rejects : ℕ → RejectedError → Verdict

pub tell : Verdict → Session → Session
tell (takes g) s = accepted g s
tell (rejects now e) s = reject now e s

pub tell_all : List Verdict → Session → Session
tell_all [] s = s
tell_all (v ∷ vs) s = tell_all vs (tell v s)

-- The rejections since the last acceptance, behind those of `acc`.
abbrev pub rejections_since : List Verdict → List (ℕ × RejectedError) → List (ℕ × RejectedError)
rejections_since [] acc = acc
rejections_since (takes g ∷ vs) acc = rejections_since vs []
rejections_since (rejects now e ∷ vs) acc = rejections_since vs (acc ++ (now, e) ∷ [])

abbrev pub offers_gzip : List Verdict → Bool
offers_gzip [] = false
offers_gzip (takes g ∷ vs) = g || offers_gzip vs
offers_gzip (rejects now e ∷ vs) = offers_gzip vs

reject_all-append :
    (rs : List (ℕ × RejectedError)) (now : ℕ) (e : RejectedError) (s : Session)
    → reject_all (rs ++ (now, e) ∷ []) s ≡ reject now e (reject_all rs s)
unfolding reject_all
reject_all-append [] now e s = refl
reject_all-append ((n, r) ∷ rs) now e s = reject_all-append rs now e (reject n r s)

gzip_ok-reject_all :
    (rs : List (ℕ × RejectedError)) (s : Session) → (reject_all rs s).gzip_ok ≡ s.gzip_ok
unfolding reject_all reject
gzip_ok-reject_all [] s = refl
gzip_ok-reject_all ((n, r) ∷ rs) s = gzip_ok-reject_all rs (reject n r s)

-- A session with `g` known of gzip and these rejections behind it.
abbrev after : List (ℕ × RejectedError) → Bool → Session
after rs g = record (reject_all rs new_session) { gzip_ok = g }

tell-after_rejects :
    (rs : List (ℕ × RejectedError)) (g : Bool) (now : ℕ) (e : RejectedError)
    → reject now e (after rs g) ≡ after (rs ++ (now, e) ∷ []) g
tell-after_rejects rs g now e = rw (reject_all-append rs now e new_session) (unfold reject in refl)

accepted-after :
    (h : Bool) (rs : List (ℕ × RejectedError)) (g : Bool)
    → accepted h (after rs g) ≡ after [] (h || g)
unfolding accepted reject_all
accepted-after true rs g = refl
accepted-after false rs g = refl

tell_all-after :
    (vs : List Verdict) (rs : List (ℕ × RejectedError)) (g : Bool)
    → tell_all vs (after rs g) ≡ after (rejections_since vs rs) (g || offers_gzip vs)
unfolding tell_all tell
tell_all-after [] rs g = ground arith
tell_all-after (takes h ∷ vs) rs g =
    ap (tell_all vs) (accepted-after h rs g)
    ∙ tell_all-after vs [] (h || g)
    ∙ ap (after (rejections_since vs [])) (ground arith)
tell_all-after (rejects now e ∷ vs) rs g =
    ap (tell_all vs) (tell-after_rejects rs g now e) ∙ tell_all-after vs (rs ++ (now, e) ∷ []) g

-- Of all that the server answered, a session keeps the rejections since the last acceptance, by
-- which it pauses, and whether any acceptance offered gzip.
pub tell_all_remembers :
    (vs : List Verdict)
    → tell_all vs new_session
      ≡ record (reject_all (rejections_since vs []) new_session) { gzip_ok = offers_gzip vs }
tell_all_remembers vs = unfold reject_all in tell_all-after vs [] false
