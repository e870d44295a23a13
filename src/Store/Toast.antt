-- ===== src/Store/Toast.antt =====
-- The store of store/toastStore.ts. The `id` and the time that `addToast` draws are arguments, and an action of
-- a toast is its label: its callback is code of the caller. A time that is `false` in the source is `none`.
pub mod Updates
use hydrui.Base.{
  ℕ, Bool, true, false, Option, none, some, List, [], ◌∷◌, ◌++◌, Text, eq_text, if◌then◌else◌,
}

pub data ToastType : Type 0 where
  error warning info success : ToastType

pub record Toast : Type 0 where
  pub id : Text
  pub message : Text
  pub type : ToastType
  pub duration : Option ℕ
  pub created_at : ℕ
  pub remaining_time : Option ℕ
  pub is_paused : Bool
  pub progress : Option ℕ
  pub actions : List Text

-- `DEFAULT_TOAST_DURATION`
abbrev pub default_toast_duration : ℕ
default_toast_duration = 10000

-- The options of `addToast`: a duration that is not given is the default one.
pub record ToastOptions : Type 0 where
  pub duration : Option (Option ℕ)
  pub actions : List Text

abbrev pub duration_or_default : Option (Option ℕ) → Option ℕ
duration_or_default none = some default_toast_duration
duration_or_default (some d) = d

abbrev pub new_toast : Text → ℕ → Text → ToastType → ToastOptions → Toast
new_toast id now message type options = record {
  id = id;
  message = message;
  type = type;
  duration = duration_or_default options.duration;
  created_at = now;
  remaining_time = duration_or_default options.duration;
  is_paused = false;
  progress = none;
  actions = options.actions;
}

unfoldable pub add_toast : Text → ℕ → Text → ToastType → ToastOptions → List Toast → List Toast
add_toast id now message type options toasts =
    toasts ++ (new_toast id now message type options ∷ [])

unfoldable pub remove_toast : Text → List Toast → List Toast
remove_toast id [] = []
remove_toast id (t ∷ ts) = if eq_text t.id id then remove_toast id ts else t ∷ remove_toast id ts

-- `toasts.map((toast) => (toast.id === id ? change(toast) : toast))`
unfoldable pub change_toast : (Toast → Toast) → Text → List Toast → List Toast
change_toast change id [] = []
change_toast change id (t ∷ ts) =
    (if eq_text t.id id then change t else t) ∷ change_toast change id ts

unfoldable pub pause_toast : Text → List Toast → List Toast
unfolding change_toast
pause_toast id ts = change_toast (λ t. record t { is_paused = true }) id ts

unfoldable pub resume_toast : Text → List Toast → List Toast
unfolding change_toast
resume_toast id ts = change_toast (λ t. record t { is_paused = false }) id ts

unfoldable pub update_toast_time : Text → ℕ → List Toast → List Toast
unfolding change_toast
update_toast_time id time ts = change_toast (λ t. record t { remaining_time = some time }) id ts

unfoldable pub update_toast_progress : Text → ℕ → List Toast → List Toast
unfolding change_toast
update_toast_progress id progress ts =
    change_toast (λ t. record t { progress = some progress }) id ts
