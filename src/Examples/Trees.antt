-- ===== src/Examples/Trees.antt =====
-- The calls of a matcher on `default_action accept;` behind an attempt of another rule.
use mavtables.Prelude.{◌≡◌, refl, true, false, some, none}
use mavtables.Prelude.Exception.{ok, ◌>>=◌}
use mavtables.ParseTree.{tree, Mixin, parse}
use mavtables.ParseTree.Builds.{
  Attempts, matches, fails, unstored, done, first, IsClean, nodes, events, parse-nodes,
}

-- Rule 1 is a `udp` block, rule 2 the `default_action`, rule 3 `accept`.
abbrev attempts : Attempts
attempts = first (fails 1 0 done) (
    first
      (unstored true (
        first
          (matches 2 Mixin.yes_without_content 0 22 (
            first (unstored false done)
              (first (matches 3 Mixin.yes_without_content 15 21 done) done)))
          done))
      done)

attempts-IsClean : IsClean attempts
unfolding IsClean nodes
attempts-IsClean = (tt, ((((tt, refl), (tt, tt)), tt), tt))

parse-nodes_example :
    parse true (events attempts)
    ≡ (nodes attempts >>= λ children. ok (some (tree none 0 none children)))
parse-nodes_example = parse-nodes attempts attempts-IsClean
