-- ===== src/Queue/Links.antt =====
-- Chains of nodes.
use libdill.Base.{ℕ, ◌≡◌, refl, ◌≢◌, sym, ◌∙◌, List, [], ◌∷◌, ◌++◌, arith}
use libdill.Queue.{write}

-- From the node `a` on, `next` leads through the nodes and on to `end`.
abbrev pub Links : (ℕ → ℕ) → ℕ → List ℕ → ℕ → Type 0
Links next a [] end = next a ≡ end
Links next a (x ∷ xs) end = (next a ≡ x) × Links next x xs end

abbrev pub NotIn : ℕ → List ℕ → Type 0
NotIn a [] = Unit
NotIn a (x ∷ xs) = (a ≢ x) × NotIn a xs

abbrev pub Distinct : List ℕ → Type 0
Distinct [] = Unit
Distinct (x ∷ xs) = NotIn x xs × Distinct xs

abbrev pub last_of : ℕ → List ℕ → ℕ
last_of a [] = a
last_of a (x ∷ xs) = last_of x xs

pub write-same : (next : ℕ → ℕ) (a v : ℕ) → write next a v a ≡ v
write-same next a v = ground arith

pub write-other : (next : ℕ → ℕ) (a v j : ℕ) → j ≢ a → write next a v j ≡ next j
write-other next a v j h = ground arith

pub NotIn-last_of : (a x : ℕ) (xs : List ℕ) → NotIn a (x ∷ xs) → a ≢ last_of x xs
NotIn-last_of a x [] h = h.0
NotIn-last_of a x (y ∷ ys) h = NotIn-last_of a y ys h.1

-- A write to a node that the chain does not pass leaves the chain.
pub Links-write :
    (next : ℕ → ℕ) (a v b : ℕ) (xs : List ℕ) (end : ℕ)
    → NotIn a (b ∷ xs)
    → Links next b xs end
    → Links (write next a v) b xs end
Links-write next a v b [] end (ne, _) l = write-other next a v b (λ e. ne (sym e)) ∙ l
Links-write next a v b (x ∷ xs) end (ne, rest) (first, l) =
    (write-other next a v b (λ e. ne (sym e)) ∙ first, Links-write next a v x xs end rest l)

-- A new node behind the last one.
pub Links-append :
    (next : ℕ → ℕ) (item b : ℕ) (xs : List ℕ) (end : ℕ)
    → NotIn item (b ∷ xs)
    → Distinct (b ∷ xs)
    → Links next b xs end
    → Links (write (write next item end) (last_of b xs) item) b (xs ++ item ∷ []) end
Links-append next item b [] end (ne, _) d l = (
  write-same (write next item end) b item,
  write-other (write next item end) b item item ne ∙ write-same next item end,
)
Links-append next item b (x ∷ xs) end (ne, rest) (fresh, d) (first, l) = (
  write-other (write next item end) (last_of x xs) item b (NotIn-last_of b x xs fresh)
      ∙ write-other next item end b (λ e. ne (sym e))
      ∙ first,
  Links-append next item x xs end rest d l,
)

pub last_of-append : (a item : ℕ) (xs : List ℕ) → last_of a (xs ++ item ∷ []) ≡ item
last_of-append a item [] = refl
last_of-append a item (x ∷ xs) = last_of-append x item xs

pub NotIn-append : (a item : ℕ) (xs : List ℕ) → a ≢ item → NotIn a xs → NotIn a (xs ++ item ∷ [])
NotIn-append a item [] ne h = (ne, tt)
NotIn-append a item (x ∷ xs) ne (h, hs) = (h, NotIn-append a item xs ne hs)

pub Distinct-append :
    (item : ℕ) (xs : List ℕ) → NotIn item xs → Distinct xs → Distinct (xs ++ item ∷ [])
Distinct-append item [] n d = (tt, tt)
Distinct-append item (x ∷ xs) (ne, n) (fresh, d) =
    (NotIn-append x item xs (λ e. ne (sym e)) fresh, Distinct-append item xs n d)

-- A node that is behind others in a list of distinct nodes is none of them.
pub Distinct-middle : (xs : List ℕ) (x : ℕ) (ys : List ℕ) → Distinct (xs ++ x ∷ ys) → NotIn x xs
Distinct-middle [] x ys d = tt
Distinct-middle (w ∷ ws) x ys (fresh, d) = (λ e. apart ws fresh (sym e), Distinct-middle ws x ys d)
  where
    apart : (l : List ℕ) → NotIn w (l ++ x ∷ ys) → w ≢ x
    apart [] n = n.0
    apart (k ∷ ks) n = apart ks n.1

-- The first node taken out of the chain.
pub unlink :
    (next : ℕ → ℕ) (self x : ℕ) (xs : List ℕ)
    → NotIn self xs
    → Links next x xs self
    → Links (write next self (next x)) self xs self
unlink next self x [] n l = write-same next self (next x) ∙ l
unlink next self x (y ∷ ys) n (first, l) =
    (write-same next self (next x) ∙ first, Links-write next self (next x) y ys self n l)
