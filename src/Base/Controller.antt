-- ===== src/Base/Controller.antt =====
-- server/src/base/ozController.h and .cpp: which streams a controller offers. A stream is a class of
-- providers, whose members are looked up in the static map of FeedProvider, or a single provider; a
-- provider is a number.
use ozonebase.Prelude.{
  ℕ, ◌≡◌, refl, Bool, true, false, not, List, [], ◌∷◌, ◌++◌, Option, none, some, arith,
  if◌then◌else◌,
}
use ozonebase.Libgen.Outcome.{Outcome, ok, panic}
use ozonebase.Libgen.TextMap.{find, has, insert, erase, or_else, find-insert, has-find}
use ozonebase.Libgen.Text.{same, same_sound}

pub record Controller : Type 0 where
  pub application_classes : List (List ℕ × List ℕ)
  pub application_instances : List (List ℕ × ℕ)

-- `smProviders`, the providers by their identities.
abbrev pub Providers : Type 0
Providers = List (List ℕ × ℕ)

unfoldable pub make_path : List ℕ → List ℕ → List ℕ
make_path name source = name ++ (b'/' ∷ source)

-- `FeedBase::makeIdentity`.
unfoldable pub make_identity : List ℕ → List ℕ → List ℕ
make_identity class name = class ++ (b':' ∷ name)

-- The two functions `addStream`; the second is given the provider's name.
unfoldable pub add_class : Controller → List ℕ → List ℕ → Outcome Controller
add_class c name class =
    if has name c.application_classes
    then panic
    else ok (record c { application_classes = insert name class c.application_classes })

unfoldable pub add_instance : Controller → List ℕ → List ℕ → ℕ → Outcome Controller
unfolding make_path
add_instance c name provider_name provider =
    let path : List ℕ = make_path name provider_name in
    if has path c.application_instances
    then panic
    else ok (record c { application_instances = insert path provider c.application_instances })

unfoldable pub remove_stream : Controller → List ℕ → Outcome Controller
remove_stream c tag =
    if has tag c.application_classes
    then ok (record c { application_classes = erase tag c.application_classes })
    else if has tag c.application_instances
    then ok (record c { application_instances = erase tag c.application_instances })
    else panic

abbrev is_empty : List (List ℕ × ℕ) → Bool
is_empty [] = true
is_empty (entry ∷ entries) = false

unfoldable pub verify_stream_name : Controller → List ℕ → Bool
verify_stream_name c name =
    if has name c.application_classes then true else not (is_empty c.application_instances)

abbrev find_in_class : Providers → List ℕ → Option (List ℕ) → Option ℕ
find_in_class providers source none = none
find_in_class providers source (some class) = find (make_identity class source) providers

unfoldable pub find_stream : Controller → Providers → List ℕ → List ℕ → Option ℕ
unfolding make_path
find_stream c providers name source =
    or_else (find (make_path name source) c.application_instances)
      (find_in_class providers source (find name c.application_classes))

find-is_empty :
    (key : List ℕ) (entries : List (List ℕ × ℕ)) → is_empty entries ≡ true → find key entries ≡ none
unfolding find
find-is_empty key [] e = refl
find-is_empty key (entry ∷ entries) e = cc

-- A stream that is found has a name that is verified.
pub verify_stream_name-find_stream :
    (c : Controller) (providers : Providers) (name source : List ℕ) {p : ℕ}
    → find_stream c providers name source ≡ some p
    → verify_stream_name c name ≡ true
unfolding find_stream verify_stream_name
verify_stream_name-find_stream c providers name source {p} e = ground (
  arith,
  find-is_empty (make_path name source) c.application_instances,
  has-find name c.application_classes,
)

-- What adding a provider changes: the streams whose path is the new one, and no other, are the
-- provider from then on.
pub find_stream-add_instance :
    (c c' : Controller) (providers : Providers) (name source n s : List ℕ) (p : ℕ)
    → add_instance c name source p ≡ ok c'
    → find_stream c' providers n s ≡ (
        if same (make_path name source) (make_path n s)
        then some p
        else find_stream c providers n s)
unfolding add_instance find_stream
find_stream-add_instance c c' providers name source n s p e = ground (
  arith,
  has-find (make_path name source) c.application_instances,
  find-insert (make_path name source) (make_path n s) p c.application_instances,
  same_sound (make_path name source) (make_path n s),
)
