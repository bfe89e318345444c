-- ===== src/Controller/Labels/Values.antt =====
-- `validLabelValueRegex`: ^(([A-Za-z0-9][-A-Za-z0-9_.]*)?[A-Za-z0-9])?$
use Prim.Native.Char.{code}
use build_operator.Prelude.{ℕ, String, ◌≡◌, refl, Bool, true, false, ◌&&◌, ◌||◌, List, [], ◌∷◌, leb}
use build_operator.Controller.Labels.Regex.{Regex, set, seq, star, optional, matches}

abbrev pub codes : String → List ℕ
codes String.[] = []
codes (String.◌∷◌ c s) = code c ∷ codes s

-- [A-Za-z0-9]
unfoldable pub is_alphanumeric : ℕ → Bool
is_alphanumeric c =
    (leb b'A' c && leb c b'Z') || (leb b'a' c && leb c b'z') || (leb b'0' c && leb c b'9')

-- [-A-Za-z0-9_.]
unfoldable pub is_inner : ℕ → Bool
unfolding is_alphanumeric
is_inner c =
    is_alphanumeric c
    || (leb b'-' c && leb c b'-')
    || (leb b'_' c && leb c b'_')
    || (leb b'.' c && leb c b'.')

unfoldable pub valid_label_value_regex : Regex
valid_label_value_regex =
    optional
      (seq (optional (seq (set is_alphanumeric) (star (set is_inner)))) (set is_alphanumeric))

-- `validLabelValueRegex.MatchString(v)`
unfoldable pub valid_label_value : String → Bool
unfolding valid_label_value_regex is_inner is_alphanumeric matches
valid_label_value v = matches valid_label_value_regex (codes v)

accepted : valid_label_value "linux_amd64.v1" ≡ true
unfolding valid_label_value
accepted = refl

skipped : valid_label_value "linux/amd64" ≡ false
unfolding valid_label_value
skipped = refl
