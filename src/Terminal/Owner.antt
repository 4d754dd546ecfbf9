-- ===== src/Terminal/Owner.antt =====
-- Who owns the screen.
use chud_os.Base.{ℕ, ◌≡◌, ◌≢◌, refl, ap, ◌∙◌, arith, Bool, true, false, ◌==◌, ==_of_ne}
use chud_os.Terminal.{Ownership, request_screen_ownership, relinquish_screen_ownership, set_tty}

-- While a task owns the screen, no other task gets it, gives it up or changes the mode of the
-- terminal; once the owner gives it up, any task that asks gets it.
pub ownership-exclusive :
    (owner other : ℕ) (mode : Bool) (o : Ownership)
    → o.screen_owner ≡ owner
    → owner ≢ 0
    → other ≢ owner
    → (request_screen_ownership other o ≡ (false, o))
      × (relinquish_screen_ownership other o ≡ o)
      × (set_tty other mode o ≡ o)
      × (request_screen_ownership other (relinquish_screen_ownership owner o)
          ≡ (true, record o { screen_owner = other }))
unfolding request_screen_ownership relinquish_screen_ownership set_tty
ownership-exclusive owner other mode o e ne0 ne =
    let taken : (o.screen_owner == 0) ≡ false = ap (λ (n : ℕ). n == 0) e ∙ ==_of_ne owner 0 ne0 in
    let foreign : (o.screen_owner == other) ≡ false =
      ap (λ (n : ℕ). n == other) e ∙ ==_of_ne owner other (λ x. absurd (omega (arith, x))) in
    let own : (o.screen_owner == owner) ≡ true = ground (arith, e) in
    (rw taken refl, rw foreign refl, rw foreign refl, rw own refl)
