-- ===== src/ParseTree/Builds.antt =====
-- The stack of nodes builds the tree of the rules that have matched.
use mavtables.Prelude.{
  ℕ, ◌≡◌, refl, sym, ap, ◌∙◌, Bool, true, false, Option, none, some, List, [], ◌∷◌, ◌++◌,
  append_assoc, append-nil,
}
use mavtables.Prelude.Exception.{Result, ok, err, ◌>>=◌, Gives}
use mavtables.ParseTree.{
  Tree, Trees, tree, leaf, and, snoc, emplace_back, Mixin, Event, started, succeeded, failed, Stack,
  start, into_parent, success, failure, step, run, transform, succeed, root, parse, only,
}

-- What a matcher tries: a stored rule that matches between two positions, one that does not, or a rule
-- that is not stored, with whether it matches; and the attempts within it, in order.
mutual
  pub data Attempt : Type 0 where
    matches : ℕ → Mixin → ℕ → ℕ → Attempts → Attempt
    fails : ℕ → ℕ → Attempts → Attempt
    unstored : Bool → Attempts → Attempt

  pub data Attempts : Type 0 where
    done : Attempts
    first : Attempt → Attempts → Attempts

-- The calls that are made.
unfoldable mutual
  pub events_of : Attempt → List Event
  events_of (matches rule mixin begin end inner) =
      started rule begin ∷ (events inner ++ succeeded mixin end ∷ [])
  events_of (fails rule begin inner) = started rule begin ∷ (events inner ++ failed ∷ [])
  events_of (unstored matched inner) = events inner

  pub events : Attempts → List Event
  events done = []
  events (first a rest) = events_of a ++ events rest

unfoldable append : Trees → Trees → Trees
append leaf ys = ys
append (and t xs) ys = and t (append xs ys)

-- The nodes of the rules that have matched: a rule that fails leaves nothing.
unfoldable mutual
  unfolding append

  nodes_of : Attempt → Result Trees
  nodes_of (matches rule mixin begin end inner) = do
    children ← nodes inner
    t ← transform mixin (tree (some rule) begin (some end) children)
    ok (and t leaf)
  nodes_of (fails rule begin inner) = nodes inner >>= λ children. ok leaf
  nodes_of (unstored true inner) = nodes inner
  nodes_of (unstored false inner) = nodes inner >>= λ children. ok leaf

  pub nodes : Attempts → Result Trees
  nodes done = ok leaf
  nodes (first a rest) = do xs ← nodes_of a; ys ← nodes rest; ok (append xs ys)

-- No rule that is not stored fails after a stored rule within it has matched.
unfoldable mutual
  unfolding nodes

  CleanOf : Attempt → Type 0
  CleanOf (matches rule mixin begin end inner) = IsClean inner
  CleanOf (fails rule begin inner) = IsClean inner
  CleanOf (unstored true inner) = IsClean inner
  CleanOf (unstored false inner) = IsClean inner × Gives (λ trees. trees ≡ leaf) (nodes inner)

  pub IsClean : Attempts → Type 0
  IsClean done = Unit
  IsClean (first a rest) = CleanOf a × IsClean rest

abbrev emplace_all : Tree → Trees → Tree
emplace_all n leaf = n
emplace_all n (and t trees) = emplace_all (emplace_back n t) trees

append-snoc : (xs : Trees) (t : Tree) (ys : Trees) → append (snoc xs t) ys ≡ append xs (and t ys)
unfolding append snoc
append-snoc leaf t ys = refl
append-snoc (and x xs) t ys = ap (and x) (append-snoc xs t ys)

append-leaf : (xs : Trees) → append xs leaf ≡ xs
unfolding append
append-leaf leaf = refl
append-leaf (and x xs) = ap (and x) (append-leaf xs)

emplace_all-append :
    (n : Tree) (xs ys : Trees) → emplace_all n (append xs ys) ≡ emplace_all (emplace_all n xs) ys
unfolding append
emplace_all-append n leaf ys = refl
emplace_all-append n (and t xs) ys = emplace_all-append (emplace_back n t) xs ys

emplace_all-children :
    (id : Option ℕ) (begin : ℕ) (end : Option ℕ) (children trees : Trees)
    → emplace_all (tree id begin end children) trees ≡ tree id begin end (append children trees)
unfolding emplace_back
emplace_all-children id begin end children leaf =
    sym (ap (tree id begin end) (append-leaf children))
emplace_all-children id begin end children (and t trees) =
    emplace_all-children id begin end (snoc children t) trees
    ∙ ap (tree id begin end) (append-snoc children t trees)

-- Behind the calls of an attempt, its nodes are the last children of the node on the top.
abbrev Goes : List Event → Result Trees → Type 0
Goes calls trees =
    (more : List Event) (n : Tree) (stack : Stack)
    → run (calls ++ more) (n ∷ stack) ≡ (trees >>= λ ts. run more (emplace_all n ts ∷ stack))

>>=-ext :
    {A B : Type 0} (m : Result A) (f g : A → Result B)
    → ((a : A) → f a ≡ g a)
    → (m >>= f) ≡ (m >>= g)
>>=-ext (ok a) f g h = h a
>>=-ext (err e) f g h = refl

given_to_parent :
    (n : Tree) (stack : Stack) (more : List Event) (r : Result Tree)
    → ((r >>= into_parent (n ∷ stack)) >>= λ s. run more s)
      ≡ ((r >>= λ t. ok (and t leaf)) >>= λ ts. run more (emplace_all n ts ∷ stack))
given_to_parent n stack more (ok t) = refl
given_to_parent n stack more (err e) = refl

-- A rule that has matched, when the node on the top has its children.
succeeded-run :
    (rule : ℕ) (mixin : Mixin) (begin end : ℕ) (more : List Event) (n : Tree) (stack : Stack)
    (trees : Result Trees)
    → (trees >>= λ ts.
        run
          (succeeded mixin end ∷ more)
          (emplace_all (tree (some rule) begin none leaf) ts ∷ n ∷ stack))
      ≡ ((trees >>= λ children.
            transform mixin (tree (some rule) begin (some end) children) >>= λ t. ok (and t leaf))
          >>= λ ts. run more (emplace_all n ts ∷ stack))
unfolding run step success succeed append
succeeded-run rule mixin begin end more n stack (err e) = refl
succeeded-run rule mixin begin end more n stack (ok ts) =
    ap (λ t. (transform mixin (succeed end t) >>= into_parent (n ∷ stack)) >>= λ s. run more s)
      (emplace_all-children (some rule) begin none leaf ts)
    ∙ given_to_parent n stack more (transform mixin (tree (some rule) begin (some end) ts))

-- A stored rule: its node collects what is within it, and is given to its parent or dropped.
matches-Goes :
    (rule : ℕ) (mixin : Mixin) (begin end : ℕ) (calls : List Event) (trees : Result Trees)
    → Goes calls trees
    → Goes (started rule begin ∷ (calls ++ succeeded mixin end ∷ [])) (
        trees >>= λ children.
        transform mixin (tree (some rule) begin (some end) children) >>= λ t. ok (and t leaf))
unfolding run step start
matches-Goes rule mixin begin end calls trees goes more n stack =
    ap (λ l. run l (tree (some rule) begin none leaf ∷ n ∷ stack))
      (append_assoc calls (succeeded mixin end ∷ []) more)
    ∙ goes (succeeded mixin end ∷ more) (tree (some rule) begin none leaf) (n ∷ stack)
    ∙ succeeded-run rule mixin begin end more n stack trees

failed-run :
    (rule begin : ℕ) (more : List Event) (n : Tree) (stack : Stack) (trees : Result Trees)
    → (trees >>= λ ts.
        run (failed ∷ more) (emplace_all (tree (some rule) begin none leaf) ts ∷ n ∷ stack))
      ≡ ((trees >>= λ children. ok leaf) >>= λ ts. run more (emplace_all n ts ∷ stack))
unfolding run step failure
failed-run rule begin more n stack (err e) = refl
failed-run rule begin more n stack (ok ts) = refl

fails-Goes :
    (rule begin : ℕ) (calls : List Event) (trees : Result Trees)
    → Goes calls trees
    → Goes (started rule begin ∷ (calls ++ failed ∷ [])) (trees >>= λ children. ok leaf)
unfolding run step start
fails-Goes rule begin calls trees goes more n stack =
    ap (λ l. run l (tree (some rule) begin none leaf ∷ n ∷ stack))
      (append_assoc calls (failed ∷ []) more)
    ∙ goes (failed ∷ more) (tree (some rule) begin none leaf) (n ∷ stack)
    ∙ failed-run rule begin more n stack trees

clean-Goes :
    (calls : List Event) (trees : Result Trees)
    → Gives (λ ts. ts ≡ leaf) trees
    → Goes calls trees
    → Goes calls (trees >>= λ children. ok leaf)
clean-Goes calls (err e) clean goes more n stack = goes more n stack
clean-Goes calls (ok ts) clean goes more n stack =
    goes more n stack ∙ ap (λ l. run more (emplace_all n l ∷ stack)) clean

then-run :
    (xs ys : Result Trees) (more : List Event) (n : Tree) (stack : Stack)
    → (xs >>= λ l. ys >>= λ m. run more (emplace_all (emplace_all n l) m ∷ stack))
      ≡ ((xs >>= λ l. ys >>= λ m. ok (append l m)) >>= λ ts. run more (emplace_all n ts ∷ stack))
then-run (err e) ys more n stack = refl
then-run (ok l) (err e) more n stack = refl
then-run (ok l) (ok m) more n stack =
    ap (λ t. run more (t ∷ stack)) (sym (emplace_all-append n l m))

then-Goes :
    (calls later : List Event) (xs ys : Result Trees)
    → Goes calls xs
    → Goes later ys
    → Goes (calls ++ later) (xs >>= λ l. ys >>= λ m. ok (append l m))
then-Goes calls later xs ys goes goes_on more n stack =
    ap (λ l. run l (n ∷ stack)) (append_assoc calls later more)
    ∙ goes (later ++ more) n stack
    ∙ >>=-ext xs _ _ (λ l. goes_on more (emplace_all n l) stack)
    ∙ then-run xs ys more n stack

mutual
  unfolding events_of events nodes_of nodes CleanOf IsClean run

  attempt-Goes : (a : Attempt) → CleanOf a → Goes (events_of a) (nodes_of a)
  attempt-Goes (matches rule mixin begin end inner) clean =
      matches-Goes rule mixin begin end (events inner) (nodes inner) (attempts-Goes inner clean)
  attempt-Goes (fails rule begin inner) clean =
      fails-Goes rule begin (events inner) (nodes inner) (attempts-Goes inner clean)
  attempt-Goes (unstored true inner) clean = attempts-Goes inner clean
  attempt-Goes (unstored false inner) (clean, nothing_left) =
      clean-Goes (events inner) (nodes inner) nothing_left (attempts-Goes inner clean)

  attempts-Goes : (l : Attempts) → IsClean l → Goes (events l) (nodes l)
  attempts-Goes done clean = λ more n stack. refl
  attempts-Goes (first a rest) (clean, others) =
      then-Goes (events_of a) (events rest) (nodes_of a) (nodes rest) (attempt-Goes a clean)
        (attempts-Goes rest others)

-- The tree that the calls of a matcher build is that of the rules that have matched, each with its
-- mixin applied and the nodes within it as its children, and the stack ends with the root alone:
-- where no rule that is not stored fails after a stored rule within it has matched.
pub parse-nodes :
    (l : Attempts)
    → IsClean l
    → parse true (events l) ≡ (nodes l >>= λ children. ok (some (tree none 0 none children)))
unfolding parse run append
parse-nodes l clean =
    ap (λ r. r >>= λ stack. only stack >>= λ t. ok (some t))
      (ap (λ m. run m (root ∷ [])) (sym (append-nil (events l))) ∙ attempts-Goes l clean [] root [])
    ∙ of_trees (nodes l)
  where
    of_trees :
        (trees : Result Trees)
        → ((trees >>= λ ts. ok (emplace_all root ts ∷ [])) >>= λ stack.
            only stack >>= λ t. ok (some t))
          ≡ (trees >>= λ children. ok (some (tree none 0 none children)))
    of_trees (err e) = refl
    of_trees (ok ts) = ap (λ t. ok (some t)) (emplace_all-children none 0 none leaf ts)
