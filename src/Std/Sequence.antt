-- ===== src/Std/Sequence.antt =====
-- `std::list` of pointers, of which the sources never enter one twice: an iterator to an element is
-- the element.
pub mod Laws
use setka.Prelude.{ℕ, ◌+◌, List, [], ◌∷◌, ◌++◌, ◌==◌, if◌then◌else◌}

-- `push_back`
unfoldable pub push_back : List ℕ → ℕ → List ℕ
push_back l v = l ++ v ∷ []

-- `erase` by iterator
unfoldable pub erase : ℕ → List ℕ → List ℕ
erase v [] = []
erase v (w ∷ l) = if v == w then l else w ∷ erase v l

-- How often an element is there.
unfoldable pub count : ℕ → List ℕ → ℕ
count v [] = 0
count v (w ∷ l) = (if v == w then 1 else 0) + count v l
