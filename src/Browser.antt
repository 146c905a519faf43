-- ===== src/Browser.antt =====
-- What the wallet scripts use of the browser: localStorage, alert, and the TypeError of a member
-- call on null or undefined. A script is a function on the page's state.
pub mod Laws
use moa_crypto.Common.{Bool, Option, none, some, List, [], ◌∷◌, ◌++◌, if◌then◌else◌}
use moa_crypto.Text.{Text, text_eq}

abbrev pub Storage : Type 0
Storage = Text → Option Text

pub record Page : Type 0 where
  pub storage : Storage
  pub alerts : List Text

pub data Result {ℓ} (A : Type ℓ) : Type ℓ where
  ok : A → Result A
  type_error : Result A

abbrev pub Script : Type 0 → Type 0
Script A = Page → Result A × Page

module _ {A : Type 0} where
  abbrev pub pure : A → Script A
  pure a p = (ok a, p)

  abbrev pub lift : Result A → Script A
  lift r p = (r, p)

  -- A member call on a value that is null or undefined.
  abbrev pub member : Option A → Result A
  member none = type_error
  member (some a) = ok a

module _ {A B : Type 0} where
  abbrev pub continue : Result A → (A → Script B) → Script B
  continue (ok a) f p = f a p
  continue type_error f p = (type_error, p)

  infixl 5 ◌>>=◌ ◌>>◌
  abbrev pub ◌>>=◌ : Script A → (A → Script B) → Script B
  ◌>>=◌ m f p = continue (m p).0 f (m p).1

  abbrev pub ◌>>◌ : Script A → Script B → Script B
  m >> n = m >>= λ _. n

-- localStorage.getItem(key); `none` is null.
abbrev pub get_item : Text → Script (Option Text)
get_item key p = (ok (p.storage key), p)

abbrev pub write : Storage → Text → Text → Storage
write s key value j = if text_eq j key then some value else s j

-- localStorage.setItem(key, value)
abbrev pub set_item : Text → Text → Script (Unit {0})
set_item key value p = (ok tt, record p { storage = write p.storage key value })

abbrev pub alert : Text → Script (Unit {0})
alert message p = (ok tt, record p { alerts = p.alerts ++ message ∷ [] })

abbrev pub blank : Page
blank = record { storage = λ _. none; alerts = [] }
