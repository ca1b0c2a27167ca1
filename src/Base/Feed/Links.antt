-- ===== src/Base/Feed/Links.antt =====
-- The maps of links of server/src/base: finding, adding and erasing a key.
use ozonebase.Prelude.{ℕ, ◌≡◌, refl, Bool, true, false, not, ◌&&◌, ◌||◌, [], ◌∷◌, ◌==◌, arith}
use ozonebase.Base.Feed.{FeedLink, LinkMap, has, add, erase}

pub has-add : (j k : ℕ) (l : FeedLink) (m : LinkMap) → has j (add k l m) ≡ ((k == j) || has j m)
unfolding has add
has-add j k l [] = ground arith
has-add j k l ((i, l') ∷ m) = ground (arith, has-add j k l m)

pub has-erase : (j k : ℕ) (m : LinkMap) → has j (erase k m) ≡ (not (k == j) && has j m)
unfolding has erase
has-erase j k [] = ground arith
has-erase j k ((i, l') ∷ m) = ground (arith, has-erase j k m)

pub has-add_self : (k : ℕ) (l : FeedLink) (m : LinkMap) → has k (add k l m) ≡ true
has-add_self k l m = ground (arith, has-add k k l m)

-- No key is there twice.
unfoldable pub distinct : LinkMap → Bool
unfolding has
distinct [] = true
distinct ((j, l) ∷ m) = not (has j m) && distinct m

pub distinct-add :
    (k : ℕ) (l : FeedLink) (m : LinkMap)
    → has k m ≡ false
    → distinct m ≡ true
    → distinct (add k l m) ≡ true
unfolding distinct has add
distinct-add k l [] h d = refl
distinct-add k l ((j, l') ∷ m) h d = ground (arith, distinct-add k l m, has-add j k l m)

pub distinct-erase : (k : ℕ) (m : LinkMap) → distinct m ≡ true → distinct (erase k m) ≡ true
unfolding distinct has erase
distinct-erase k [] d = refl
distinct-erase k ((j, l') ∷ m) d = ground (arith, distinct-erase k m, has-erase j k m)
