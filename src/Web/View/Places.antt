-- ===== src/Web/View/Places.antt =====
-- internal/web/server.go: viewMessages lists the messages that show something, with their indices.
use pyttechat.Base.{
  ℕ, zero, suc, ◌+◌, ◌≤◌, false, List, [], ◌∷◌, some, get_elem?, ◌≡◌, refl, sym, ap, ◌∙◌, arith,
  inl, inr, Bool-cases, All, All-imp, ◌⊎◌, ◌≢◌,
}
use mathlib.Core.List.{Memᴰ}
use pyttechat.Llm.{Message}
use pyttechat.Web.View.{Renderer, Formats, ViewMessage}
use pyttechat.Web.View.Pages.{view_message, is_blank, views_from, view_messages}

-- A page shows something of the view.
abbrev pub ShowsSomething : ViewMessage → Type 0
ShowsSomething v = (v.text ≢ []) ⊎ ((v.html ≢ []) ⊎ (v.statuses ≢ []))

-- The indices go up, from `i` on.
abbrev pub Ascends : ℕ → List ViewMessage → Type 0
Ascends i [] = Unit
Ascends i (v ∷ vs) = (i ≤ v.index) × Ascends (suc v.index) vs

Ascends-le : (i j : ℕ) (vs : List ViewMessage) → i ≤ j → Ascends j vs → Ascends i vs
Ascends-le i j [] h a = tt
Ascends-le i j (v ∷ vs) h a = (omega arith, a.1)

module _ (f : Formats) (render : Renderer) where
  -- `v` shows the message that stands `k` places behind index `i`, and shows something.
  abbrev pub Views : ℕ → List Message → ViewMessage → Type 0
  Views i ms v =
      (k : ℕ) × (m : Message) × (get_elem? ms k ≡ some m)
      × (v ≡ view_message f render (i + k) m)
      × (is_blank f render v ≡ false)

  -- What has something to show is in the list.
  abbrev pub ShowsAll : ℕ → List Message → List ViewMessage → Type 0
  ShowsAll i ms vs =
      (k : ℕ) (m : Message)
      → get_elem? ms k ≡ some m
      → is_blank f render (view_message f render (i + k) m) ≡ false
      → Memᴰ (view_message f render (i + k) m) vs

  is_blank→ShowsSomething : (v : ViewMessage) → is_blank f render v ≡ false → ShowsSomething v
  is_blank→ShowsSomething v h = ground (arith, h)

  ShowsSomething→is_blank : (v : ViewMessage) → ShowsSomething v → is_blank f render v ≡ false
  ShowsSomething→is_blank v h = ground (arith, h)

  Views-suc :
      (i : ℕ) (m : Message) (ms : List Message) (v : ViewMessage)
      → Views (suc i) ms v
      → Views i (m ∷ ms) v
  Views-suc i m ms v (k, m', at, shown, full) =
      let same : suc i + k ≡ i + suc k = omega arith in (suc k, m', at, rw same at shown, full)

  index-view_message : (i : ℕ) (m : Message) → (view_message f render i m).index ≡ i
  unfolding view_message
  index-view_message i m = ground arith

  views_from-Views : (i : ℕ) (ms : List Message) → All (Views i ms) (views_from f render i ms)
  unfolding views_from
  views_from-Views i [] = tt
  views_from-Views i (m ∷ ms) =
      let rest =
        All-imp (Views (suc i) ms) (Views i (m ∷ ms)) (Views-suc i m ms) _
          (views_from-Views (suc i) ms) in
      let here : i + 0 ≡ i = omega arith in
      elim (Bool-cases (is_blank f render (view_message f render i m))) [
        | inl e ↦ rw (e, views_from) rest
        | inr e ↦ rw (e, views_from) ((0, m, refl, rw here refl, e), rest)
      ]

  views_from-Ascends : (i : ℕ) (ms : List Message) → Ascends i (views_from f render i ms)
  unfolding views_from
  views_from-Ascends i [] = tt
  views_from-Ascends i (m ∷ ms) =
      let rest = views_from-Ascends (suc i) ms in
      elim (Bool-cases (is_blank f render (view_message f render i m))) [
        | inl e ↦ rw (e, views_from) (Ascends-le i (suc i) _ (omega arith) rest)
        | inr e ↦ rw (e, views_from, index-view_message i m) (omega arith, rest)
      ]

  views_from-ShowsAll : (i : ℕ) (ms : List Message) → ShowsAll i ms (views_from f render i ms)
  unfolding views_from
  views_from-ShowsAll i [] k m at full = ground arith
  views_from-ShowsAll i (m₀ ∷ ms) zero m at full =
      let same : i + 0 ≡ i = omega arith in
      let is_it : m₀ ≡ m = ground (arith, at) in
      let full' : is_blank f render (view_message f render i m₀) ≡ false =
        rw is_it (rw same at full) in
      rw (same, ← is_it, full', views_from) (Memᴰ.head refl)
  views_from-ShowsAll i (m₀ ∷ ms) (suc k) m at full =
      let same : i + suc k ≡ suc i + k = omega arith in
      let rest : Memᴰ (view_message f render (i + suc k) m) (views_from f render (suc i) ms) =
        rw same (views_from-ShowsAll (suc i) ms k m at (rw same at full)) in
      elim (Bool-cases (is_blank f render (view_message f render i m₀))) [
        | inl e ↦ rw (e, views_from) rest
        | inr e ↦ rw (e, views_from) (Memᴰ.tail rest)
      ]

  -- viewMessages shows exactly the messages that have something to show: each view is that of the
  -- message at the view's index in the conversation and has a text, HTML or a status, the indices
  -- go up, and no message whose view has a text, HTML or a status is left out.
  pub view_messages_places :
      (ms : List Message)
      → let vs = view_messages f render ms in
        All
          (λ v.
            (m : Message) × (get_elem? ms v.index ≡ some m)
            × (v ≡ view_message f render v.index m)
            × ShowsSomething v)
          vs
        × Ascends 0 vs
        × ((i : ℕ) (m : Message)
            → get_elem? ms i ≡ some m
            → ShowsSomething (view_message f render i m)
            → Memᴰ (view_message f render i m) vs)
  unfolding view_messages
  view_messages_places ms = (
    All-imp (Views 0 ms) _ placed _ (views_from-Views 0 ms),
    views_from-Ascends 0 ms,
    λ i m. shown i m,
  )
    where
      placed :
          (v : ViewMessage)
          → Views 0 ms v
          → (m : Message) × (get_elem? ms v.index ≡ some m)
            × (v ≡ view_message f render v.index m)
            × ShowsSomething v
      placed v (k, m, found, e, full) =
          let start : 0 + k ≡ k = omega arith in
          let place : v.index ≡ k = ap (λ u. u.index) e ∙ index-view_message (0 + k) m ∙ start in
          (
            m,
            rw place found,
            (rw start at e) ∙ ap (λ i. view_message f render i m) (sym place),
            is_blank→ShowsSomething v full,
          )

      shown :
          (i : ℕ) (m : Message)
          → get_elem? ms i ≡ some m
          → ShowsSomething (view_message f render i m)
          → Memᴰ (view_message f render i m) (views_from f render 0 ms)
      shown i m at full =
          let start : i ≡ 0 + i = omega arith in
          let full' = ShowsSomething→is_blank (view_message f render i m) full in
          rw start (views_from-ShowsAll 0 ms i m at (rw start at full'))
