-- ===== src/Web/Run/Stop.antt =====
-- What a stop that the user asks for leaves of the turn.
use pyttechat.Base.{ℕ, suc, true, false, List, ◌∷◌, none, some, ◌≡◌, arith, if◌then◌else◌}
use pyttechat.Errors.{Error, is_canceled, Result, err}
use pyttechat.Llm.{Event}
use pyttechat.Chat.Session.{World}
use pyttechat.Chat.Turn.{
  TurnStream, next, read_stream, finalize, commit_partial, abort, record_outcome, record_error,
}
use pyttechat.Web.Job.{Job}
use pyttechat.Web.Run.{
  visits, should_abort, Shown, Setting, emit_aborted, emit_after_commit, end_with, run_loop,
}

module _ {W : Type 0} where
  -- Next at a read that fails.
  next_failed :
      (t : TurnStream) (w : World W) (e : Error) (rest : List (Result Event))
      → t.stream.reads ≡ err e ∷ rest
      → t.finalized ≡ false
      → let (t', w', event, failure) = next t w in
        (failure ≡ some e)
        × (t'.finalized ≡ (if is_canceled e then false else true))
        × (w'.session.messages ≡ w.session.messages)
  unfolding next read_stream record_error record_outcome abort
  next_failed t w e rest r live = ground arith

  -- A turn that is over commits nothing more, and says so with no error.
  commit_partial_over :
      (t : TurnStream) (w : World W) → t.finalized ≡ true → commit_partial t w ≡ (t, w, none)
  unfolding commit_partial finalize
  commit_partial_over t w h = ground arith

  -- A stop that was asked for before a live turn meets a stream which fails in any other way than
  -- by its cancellation, its end included, is announced as `aborted`, and nothing of the turn is
  -- in the conversation.
  pub stop_without_commit :
      (g : Setting) (n : ℕ) (t : TurnStream) (s : Shown) (w : World W) (j : Job) (e : Error)
      (rest : List (Result Event))
      → t.stream.reads ≡ err e ∷ rest
      → t.finalized ≡ false
      → (visits (g.others n) j).abort_requested ≡ true
      → is_canceled e ≡ false
      → let (_, _, w', j') = run_loop g (suc n) t s w j in
        (w'.session.messages ≡ w.session.messages) × (j' ≡ emit_aborted g (visits (g.others n) j))
  unfolding run_loop end_with emit_after_commit should_abort
  stop_without_commit g n t s w j e rest r live stop other =
      let (failed, over, kept) = next_failed t w e rest r live in
      let (t₁, w₁, _, _) = next t w in
      let none_more = commit_partial_over t₁ w₁ (rw other at over) in
      rw (failed, run_loop) (ground (arith, none_more, kept, stop))
