-- ===== src/Printers/Seen.antt =====
-- What a run of cw08 has put into the queue and taken out of it, when one more event is seen.
use sysops.Common.{◌+◌, ◌≡◌, refl, ap, List, [], ◌∷◌, ◌++◌, append_assoc, append-nil, length, arith}
use sysops.Printers.{Job, Event, put, took, printed}
use sysops.Printers.Steps.{puts, takes}

puts-append : (xs ys : List Event) → puts (xs ++ ys) ≡ puts xs ++ puts ys
unfolding puts
puts-append [] ys = refl
puts-append (put job ∷ xs) ys = ap (λ r. job ∷ r) (puts-append xs ys)
puts-append (took job ∷ xs) ys = puts-append xs ys
puts-append (printed job ∷ xs) ys = puts-append xs ys

takes-append : (xs ys : List Event) → takes (xs ++ ys) ≡ takes xs ++ takes ys
unfolding takes
takes-append [] ys = refl
takes-append (put job ∷ xs) ys = takes-append xs ys
takes-append (took job ∷ xs) ys = ap (λ r. job ∷ r) (takes-append xs ys)
takes-append (printed job ∷ xs) ys = takes-append xs ys

pub order_same :
    (seen more : List Event) (ws : List Job)
    → puts seen ≡ takes seen ++ ws
    → puts more ≡ []
    → takes more ≡ []
    → puts (seen ++ more) ≡ takes (seen ++ more) ++ ws
order_same seen more ws o np nt =
    simp
      (
        puts-append seen more,
        takes-append seen more,
        np,
        nt,
        append-nil (puts seen),
        append-nil (takes seen),
      )
      o

pub order_put :
    (seen : List Event) (ws : List Job) (b : Job)
    → puts seen ≡ takes seen ++ ws
    → puts (seen ++ (put b ∷ [])) ≡ takes (seen ++ (put b ∷ [])) ++ (ws ++ (b ∷ []))
unfolding puts takes
order_put seen ws b o =
    simp
      (
        puts-append seen (put b ∷ []),
        takes-append seen (put b ∷ []),
        o,
        append-nil (takes seen),
        append_assoc (takes seen) ws (b ∷ []),
      )
      refl

pub order_took :
    (seen : List Event) (ws : List Job) (b : Job)
    → puts seen ≡ takes seen ++ (b ∷ ws)
    → puts (seen ++ (took b ∷ [])) ≡ takes (seen ++ (took b ∷ [])) ++ ws
unfolding puts takes
order_took seen ws b o =
    simp
      (
        puts-append seen (took b ∷ []),
        takes-append seen (took b ∷ []),
        o,
        append-nil (takes seen ++ (b ∷ ws)),
        append_assoc (takes seen) (b ∷ []) ws,
      )
      refl

pub length-append_one : (ws : List Job) (b : Job) → length (ws ++ (b ∷ [])) ≡ length ws + 1
length-append_one [] b = refl
length-append_one (w ∷ ws) b = omega (arith, length-append_one ws b)
