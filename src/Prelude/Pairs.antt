-- ===== src/Prelude/Pairs.antt =====
-- `std::set` of pairs of numbers: a list in increasing lexicographic order.
use my_testserver.Prelude.{
  ℕ, ◌≡◌, refl, Bool, true, false, not, ◌&&◌, List, [], ◌∷◌, ltb, ◌==◌, arith, if◌then◌else◌,
}

abbrev pub Pair : Type 0
Pair = ℕ × ℕ

-- `operator<` of two pairs.
abbrev pub less : Pair → Pair → Bool
less (a, b) (c, d) = if ltb a c then true else if ltb c a then false else ltb b d

abbrev pub same_pair : Pair → Pair → Bool
same_pair (a, b) (c, d) = a == c && b == d

unfoldable pub contains : List Pair → Pair → Bool
contains [] p = false
contains (q ∷ rest) p = if same_pair q p then true else contains rest p

unfoldable pub insert : List Pair → Pair → List Pair
insert [] p = p ∷ []
insert (q ∷ rest) p =
    if less p q then p ∷ q ∷ rest else if less q p then q ∷ insert rest p else q ∷ rest

unfoldable pub erase : List Pair → Pair → List Pair
erase [] p = []
erase (q ∷ rest) p = if same_pair q p then rest else q ∷ erase rest p

-- The elements up to a bound, and those above it.
unfoldable pub up_to : List Pair → Pair → List Pair
up_to [] bound = []
up_to (q ∷ rest) bound = if less bound q then [] else q ∷ up_to rest bound

unfoldable pub above : List Pair → Pair → List Pair
above [] bound = []
above (q ∷ rest) bound = if less bound q then q ∷ rest else above rest bound

abbrev pub AllAbove : Pair → List Pair → Type 0
AllAbove p [] = Unit {0}
AllAbove p (q ∷ rest) = (less p q ≡ true) × AllAbove p rest

abbrev pub Sorted : List Pair → Type 0
Sorted [] = Unit {0}
Sorted (q ∷ rest) = AllAbove q rest × Sorted rest

pub contains-insert :
    (s : List Pair) (p j : Pair)
    → contains (insert s p) j ≡ (if same_pair p j then true else contains s j)
unfolding contains insert
contains-insert [] p j = ground arith
contains-insert (q ∷ rest) p j = ground (arith, contains-insert rest p j)

AllAbove-insert :
    (p : Pair) (s : List Pair) (q : Pair) → less p q ≡ true → AllAbove p s → AllAbove p (insert s q)
unfolding insert
AllAbove-insert p [] q h a = (h, tt)
AllAbove-insert p (r ∷ rest) q h a = ground (arith, AllAbove-insert p rest q h a.1)

AllAbove-trans : (p q : Pair) (s : List Pair) → less p q ≡ true → AllAbove q s → AllAbove p s
AllAbove-trans p q [] h a = tt
AllAbove-trans p q (r ∷ rest) h a = (ground arith, AllAbove-trans p q rest h a.1)

pub insert-Sorted : (s : List Pair) (p : Pair) → Sorted s → Sorted (insert s p)
unfolding insert
insert-Sorted [] p d = (tt, tt)
insert-Sorted (q ∷ rest) p d =
    ground (arith, insert-Sorted rest p d.1, AllAbove-trans p q rest, AllAbove-insert q rest p)

-- What all elements are above is no element.
AllAbove-absent : (p : Pair) (s : List Pair) → AllAbove p s → contains s p ≡ false
unfolding contains
AllAbove-absent p [] a = refl
AllAbove-absent p (q ∷ rest) a = ground (arith, AllAbove-absent p rest a.1)

same_pair→eq : (p q : Pair) → same_pair p q ≡ true → p ≡ q
same_pair→eq (a, b) (c, d) h = ground arith

pub contains-erase :
    (s : List Pair) (p j : Pair)
    → Sorted s
    → contains (erase s p) j ≡ (if same_pair p j then false else contains s j)
unfolding contains erase
contains-erase [] p j d = ground arith
contains-erase (q ∷ rest) p j d =
    ground (arith, contains-erase rest p j d.1, AllAbove-absent q rest d.0, same_pair→eq q j)

AllAbove-erase : (p : Pair) (s : List Pair) (q : Pair) → AllAbove p s → AllAbove p (erase s q)
unfolding erase
AllAbove-erase p [] q a = tt
AllAbove-erase p (r ∷ rest) q a = ground (arith, AllAbove-erase p rest q a.1)

pub erase-Sorted : (s : List Pair) (p : Pair) → Sorted s → Sorted (erase s p)
unfolding erase
erase-Sorted [] p d = tt
erase-Sorted (q ∷ rest) p d = ground (arith, erase-Sorted rest p d.1, AllAbove-erase q rest p d.0)

-- Above a bound, and up to it.
AllAbove-bound :
    (bound q : Pair) (s : List Pair) → less bound q ≡ true → AllAbove q s → AllAbove bound s
AllAbove-bound bound q s h a = AllAbove-trans bound q s h a

AllAbove-less :
    (p : Pair) (s : List Pair) (j : Pair) → AllAbove p s → contains s j ≡ true → less p j ≡ true
unfolding contains
AllAbove-less p [] j a h = ground arith
AllAbove-less p (q ∷ rest) j a h = ground (arith, AllAbove-less p rest j a.1, same_pair→eq q j)

pub contains-above :
    (s : List Pair) (bound j : Pair)
    → Sorted s
    → contains (above s bound) j ≡ (less bound j && contains s j)
unfolding contains above
contains-above [] bound j d = ground arith
contains-above (q ∷ rest) bound j d =
    ground (arith, contains-above rest bound j d.1, AllAbove-less q rest j d.0, same_pair→eq q j)

pub contains-up_to :
    (s : List Pair) (bound j : Pair)
    → Sorted s
    → contains (up_to s bound) j ≡ (not (less bound j) && contains s j)
unfolding contains up_to
contains-up_to [] bound j d = ground arith
contains-up_to (q ∷ rest) bound j d =
    ground (arith, contains-up_to rest bound j d.1, AllAbove-less q rest j d.0, same_pair→eq q j)

pub above-Sorted : (s : List Pair) (bound : Pair) → Sorted s → Sorted (above s bound)
unfolding above
above-Sorted [] bound d = tt
above-Sorted (q ∷ rest) bound d = ground (arith, above-Sorted rest bound d.1)
