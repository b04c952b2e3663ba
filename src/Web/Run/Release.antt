-- ===== src/Web/Run/Release.antt =====
-- A run gives the session back.
use pyttechat.Base.{
  ℕ, zero, suc, false, Bytes, if◌then◌else◌, ◌≡◌, ap, ◌∙◌, ◌⊎◌, arith, inl, inr, Option-cases,
  Bool-cases,
}
use pyttechat.Errors.{Error, is_eof, ok, Result-cases}
use pyttechat.Chat.Session.{Client, World, SendOptions, commit_stopped, append_or_replace_tail}
use pyttechat.Chat.Turn.{
  TurnStream, open_turn, send, next, commit_partial, close, abort, record_outcome,
}
use pyttechat.Chat.Turn.Claims.{Effect, next-Effect, commit_partial-Effect}
use pyttechat.Chat.Turn.Commit.{send-err}
use pyttechat.Web.Job.{Job}
use pyttechat.Web.Run.{
  visits, should_abort, Shown, Setting, show_event, end_with, run_loop, run_stream, refuse, run,
  nothing_shown,
}

module _ {W : Type 0} where
  -- A turn that is over does not hold the session.
  abbrev Frees : TurnStream → World W → Type 0
  Frees t w = (t.finalized ≡ false) ⊎ (w.session.in_flight ≡ false)

  Effect-Frees : (t t' : TurnStream) (w w' : World W) → Effect t w t' w' → Frees t w → Frees t' w'
  Effect-Frees t t' w w' h f = ground arith

  end_with-Frees :
      (g : Setting) (e : Error) (t : TurnStream) (w : World W) (j : Job)
      → Frees t w
      → let (t', w', _) = end_with g e t w j in Frees t' w'
  unfolding end_with
  end_with-Frees g e t w j f =
      let (t', w', _) = commit_partial t w in
      let after : Frees t' w' = Effect-Frees t t' w w' (commit_partial-Effect t w) f in
      elim (Bool-cases (if is_eof e then j.abort_requested else should_abort e j)) [
        | inl e' ↦ rw e' after
        | inr e' ↦ rw e' f
      ]

  run_loop-Frees :
      (g : Setting) (n : ℕ) (t : TurnStream) (s : Shown) (w : World W) (j : Job)
      → Frees t w
      → let (t', _, w', _) = run_loop g n t s w j in Frees t' w'
  unfolding run_loop
  run_loop-Frees g zero t s w j f = f
  run_loop-Frees g (suc n) t s w j f =
      let j₁ = visits (g.others n) j in
      let (t₁, w₁, event, failure) = next t w in
      let f₁ : Frees t₁ w₁ = Effect-Frees t t₁ w w₁ (next-Effect t w) f in
      elim (Option-cases failure) [
        | inr (e, failed) ↦ rw (failed, run_loop) (end_with-Frees g e t₁ w₁ j₁ f₁)
        | inl fine ↦
            let (s₂, j₂, returns) = show_event g event.type event t₁ s j₁ in
            elim (Bool-cases returns) [
              | inl e ↦ rw (fine, run_loop, e) f₁
              | inr e ↦ rw (fine, run_loop, e) (run_loop-Frees g n t₁ s₂ w₁ j₂ f₁)
            ]
      ]

  close_free : (t : TurnStream) (w : World W) → Frees t w → (close t w).1.session.in_flight ≡ false
  unfolding close abort record_outcome
  close_free t w f = ground arith

  commit_stopped_free :
      (w : World W) (prompt : Bytes) (opts : SendOptions)
      → w.session.in_flight ≡ false
      → (commit_stopped w prompt opts).0.session.in_flight ≡ false
  unfolding commit_stopped append_or_replace_tail
  commit_stopped_free w prompt opts h = ground arith

  refuse_free :
      (g : Setting) (e : Error) (prompt : Bytes) (opts : SendOptions) (w : World W) (j : Job)
      → w.session.in_flight ≡ false
      → (refuse g e prompt opts w j).0.session.in_flight ≡ false
  unfolding refuse
  refuse_free g e prompt opts w j h = ground (arith, commit_stopped_free w prompt opts h)

  send_live :
      (w w' : World W) (client : Client) (prompt : Bytes) (opts : SendOptions) (t : TurnStream)
      → send w client prompt opts ≡ (w', ok t)
      → t.finalized ≡ false
  unfolding send open_turn
  send_live w w' client prompt opts t h = ground arith

  -- A run that starts while no turn holds the session leaves the session free, on every path: the
  -- prompt refused, the client failed, the turn completed, failed, stopped or cut off.
  pub run_free :
      (g : Setting) (w : World W) (client : Client) (prompt : Bytes) (opts : SendOptions) (j : Job)
      → w.session.in_flight ≡ false
      → (run g w client prompt opts j).0.session.in_flight ≡ false
  unfolding run run_stream
  run_free g w client prompt opts j h = elim (Result-cases (send w client prompt opts).1) [
    | inl (t, e) ↦
        let (w₁, _) = send w client prompt opts in
        let (t₂, _, w₂, _) = run_stream g t w₁ j in
        rw (e, run, run_stream)
          (close_free t₂ w₂ (
            run_loop-Frees g _ t nothing_shown w₁ j
              (inl (send_live w w₁ client prompt opts t (ground (arith, e))))))
    | inr (e, e') ↦
        let (w₁, _) = send w client prompt opts in
        let free : w₁.session.in_flight ≡ false =
          ap (λ s. s.in_flight) (send-err w w₁ client prompt opts e (ground (arith, e'))).0 ∙ h in
        rw (e', run) (refuse_free g e prompt opts w₁ (visits (g.others 0) j) free)
  ]
