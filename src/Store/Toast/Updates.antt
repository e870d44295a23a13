-- ===== src/Store/Toast/Updates.antt =====
-- Toasts that are added, changed and removed: one action of store/toastStore.ts behind another.
use hydrui.Base.{
  ℕ, ◌≡◌, refl, ap, ◌∙◌, true, false, some, List, [], ◌∷◌, ◌++◌, Text, All, eq_text, eq_text_refl,
  append-nil,
}
use hydrui.Store.Toast.{
  Toast, ToastType, ToastOptions, new_toast, add_toast, remove_toast, change_toast, pause_toast,
  resume_toast, update_toast_time, update_toast_progress,
}

-- An id that no toast has.
abbrev pub IsFresh : Text → List Toast → Type 0
IsFresh id ts = All (λ t. eq_text t.id id ≡ false) ts

remove_toast-fresh :
    (id : Text) (ts us : List Toast)
    → IsFresh id ts
    → remove_toast id (ts ++ us) ≡ ts ++ remove_toast id us
unfolding remove_toast
remove_toast-fresh id [] us h = refl
remove_toast-fresh id (t ∷ ts) us h = rw h.0 (ap (t ∷◌) (remove_toast-fresh id ts us h.1))

change_toast-fresh :
    (change : Toast → Toast) (id : Text) (ts us : List Toast)
    → IsFresh id ts
    → change_toast change id (ts ++ us) ≡ ts ++ change_toast change id us
unfolding change_toast
change_toast-fresh change id [] us h = refl
change_toast-fresh change id (t ∷ ts) us h =
    rw h.0 (ap (t ∷◌) (change_toast-fresh change id ts us h.1))

remove_toast_self : (t : Toast) → remove_toast t.id (t ∷ []) ≡ []
unfolding remove_toast
remove_toast_self t = rw (eq_text_refl t.id) refl

change_toast_self :
    (change : Toast → Toast) (t : Toast) → change_toast change t.id (t ∷ []) ≡ change t ∷ []
unfolding change_toast
change_toast_self change t = rw (eq_text_refl t.id) refl

change_toast-last :
    (change : Toast → Toast) (ts : List Toast) (t : Toast)
    → IsFresh t.id ts
    → change_toast change t.id (ts ++ (t ∷ [])) ≡ ts ++ (change t ∷ [])
change_toast-last change ts t fresh =
    change_toast-fresh change t.id ts (t ∷ []) fresh ∙ ap (ts ++◌) (change_toast_self change t)

module _ (id : Text) (now time progress : ℕ) (message : Text) (type : ToastType)
    (options : ToastOptions) (ts : List Toast) where
  abbrev pub lived : List Toast
  lived = resume_toast id (
      update_toast_progress id progress
        (update_toast_time id time (pause_toast id (add_toast id now message type options ts))))

  -- A toast with an id that no other has, added, paused, given a time and a progress and resumed, stands
  -- behind the unchanged others with what was set, and once it is removed the list is the one that it was
  -- added to.
  pub add_toast-remove_toast :
      IsFresh id ts
      → (lived
          ≡ ts
            ++ (record (new_toast id now message type options) {
              remaining_time = some time;
              progress = some progress;
            }
                ∷ []))
        × (remove_toast id lived ≡ ts)
  unfolding add_toast pause_toast resume_toast update_toast_time update_toast_progress
  add_toast-remove_toast fresh =
      let t₀ = new_toast id now message type options in
      let t₁ : Toast = record t₀ { is_paused = true } in
      let t₂ : Toast = record t₁ { remaining_time = some time } in
      let t₃ : Toast = record t₂ { progress = some progress } in
      let p₀ = change_toast-last (λ t. record t { is_paused = true }) ts t₀ fresh in
      let p₁ = change_toast-last (λ t. record t { remaining_time = some time }) ts t₁ fresh in
      let p₂ = change_toast-last (λ t. record t { progress = some progress }) ts t₂ fresh in
      let p₃ = change_toast-last (λ t. record t { is_paused = false }) ts t₃ fresh in
      let t₄ : Toast = record t₃ { is_paused = false } in
      let whole : lived ≡ ts ++ (t₄ ∷ []) = rw (p₀, p₁, p₂) p₃ in
      (
        whole,
        ap (remove_toast id) whole
            ∙ (remove_toast-fresh id ts _ fresh
                ∙ (ap (ts ++◌) (remove_toast_self t₄) ∙ append-nil ts)),
      )
