-- ===== src/Urlify/Examples.antt =====
-- The slugs of titles.
use bluetooth_autonomous_car.Prelude.{◌≡◌, refl, false}
use bluetooth_autonomous_car.Text.{codes, is_space}
use bluetooth_autonomous_car.Urlify.{urlify}

-- The example of the function's comment, and one with a letter to spell and a word to remove.
petty_theft : urlify (λ s. s) (λ c. false) (codes "Petty theft") 50 false ≡ codes "Petty-theft"
unfolding urlify is_space
petty_theft = refl

the_theft : urlify (λ s. s) (λ c. false) (codes "The théft!") 50 false ≡ codes "theft"
unfolding urlify is_space
the_theft = refl
