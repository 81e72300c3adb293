-- ===== src/Text/Samples.antt =====
-- Runs of the text functions.
use openriak_operator.Prelude.{◌≡◌, refl, [], ◌∷◌, none}
use openriak_operator.Text.Words.{fields, split_on, trim_space}
use openriak_operator.Text.Numbers.{itoa, parse_int}

fields_test : fields "  valid  100%\t-- riak@a " ≡ "valid" ∷ "100%" ∷ "--" ∷ "riak@a" ∷ []
unfolding fields
fields_test = refl

split_test : split_on "," "a,,b" ≡ "a" ∷ "" ∷ "b" ∷ []
unfolding split_on
split_test = refl

itoa_test : itoa 1203 ≡ "1203"
unfolding itoa
itoa_test = refl

parse_test : parse_int 32 (itoa 2147483648) ≡ none
unfolding itoa parse_int
parse_test = refl

trim_test : trim_space "  a b\n" ≡ "a b"
unfolding trim_space
trim_test = refl
