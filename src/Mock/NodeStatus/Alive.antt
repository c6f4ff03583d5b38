-- ===== src/Mock/NodeStatus/Alive.antt =====
-- What the alive-time loop leaves of a node.
use virtual_kubelet_cmd.Base.{
  ℕ, ℤ, String, Bool, true, false, ◌||◌, some, List, [], ◌∷◌, ◌++◌, pos, ◌≡◌, refl, inl, inr,
  Bool-cases, sym, ap, ◌∙◌, if◌then◌else◌, string_equality,
}
use virtual_kubelet_cmd.Base.Dict.{Dict, insert, insert-insert}
use virtual_kubelet_cmd.Base.Int.{leb_int, minus, to_int64}
use virtual_kubelet_cmd.Base.Outcome.{ok}
use virtual_kubelet_cmd.Mock.NodeStatus.{
  Numbers, not_ready, alive_time, notify_node_alive_time, end_of_time, alive_ticks, alive_time_loop,
}
use virtual_kubelet_cmd.Node.Config.{NodeCondition, NodeObject}

module _ (num : Numbers) (wall : String) where
  -- The time that is left at a tick: the number of the wall time less the seconds that have passed,
  -- as an int64. Whether it is over, and the label that the tick writes.
  abbrev time_left : ℕ → ℤ
  time_left t = to_int64 (minus (num.parse_int wall) t)

  abbrev is_over : ℕ → Bool
  is_over t = leb_int (time_left t) (pos 0)

  abbrev pub alive_label : ℕ → String
  alive_label t = if is_over t then "0" else num.format_int (time_left t)

  abbrev pub any_over : List ℕ → Bool
  any_over [] = false
  any_over (t ∷ ts) = is_over t || any_over ts

abbrev pub expired : Bool → NodeCondition → NodeCondition
expired over c = if over then not_ready c else c

expired_or : (a b : Bool) (c : NodeCondition) → expired b (expired a c) ≡ expired (a || b) c
expired_or true true c = refl
expired_or true false c = refl
expired_or false b c = refl

module _ (num : Numbers) (wall : String) (n : NodeObject) (m : Dict String String)
    (cs : List NodeCondition) where
  -- A node whose first condition is `c`, with a label for the time that is left.
  abbrev shown : String → NodeCondition → NodeObject
  shown label c = record n {
    labels = some (insert "jiriaf.alivetime" label m);
    conditions = c ∷ cs;
  }

  tick_shown :
      (t : ℕ) (label : String) (c : NodeCondition)
      → notify_node_alive_time num wall t (shown label c)
        ≡ ok (shown (alive_label num wall t) (expired (is_over num wall t) c))
  unfolding notify_node_alive_time end_of_time alive_time
  tick_shown t label c = elim (Bool-cases (is_over num wall t)) [
    | inl e ↦ rw e (simp insert-insert)
    | inr e ↦ rw e (simp insert-insert)
  ]

  ticks_shown :
      (ts : List ℕ) (t : ℕ) (label : String) (c : NodeCondition)
      → alive_ticks num wall (ts ++ t ∷ []) (shown label c)
        ≡ ok (shown (alive_label num wall t) (expired (any_over num wall (ts ++ t ∷ [])) c))
  unfolding alive_ticks
  ticks_shown [] t label c =
      rw (tick_shown t label c, sym (expired_or (is_over num wall t) false c)) refl
  ticks_shown (s ∷ ts) t label c =
      rw
        (
          tick_shown s label c,
          ticks_shown ts t (alive_label num wall s) (expired (is_over num wall s) c),
        )
        (ap (λ c'. ok (shown (alive_label num wall t) c'))
          (expired_or (is_over num wall s) (any_over num wall (ts ++ t ∷ [])) c))

loop_shown :
    (num : Numbers) (getenv : String → String) (n : NodeObject) (m : Dict String String)
    (c : NodeCondition) (cs : List NodeCondition) (ts : List ℕ) (t : ℕ)
    → alive_time_loop num getenv (ts ++ t ∷ []) (record n { labels = some m; conditions = c ∷ cs })
      ≡ ok (record n {
        labels = some (
            insert "jiriaf.alivetime"
              (alive_label num (getenv "JIRIAF_WALLTIME") t)
              (insert "jiriaf.walltime" (getenv "JIRIAF_WALLTIME") m));
        conditions = expired (any_over num (getenv "JIRIAF_WALLTIME") (ts ++ t ∷ [])) c ∷ cs;
      })
unfolding alive_time_loop
loop_shown num getenv n m c cs ts t =
    let wall = getenv "JIRIAF_WALLTIME" in
    ticks_shown num wall n (insert "jiriaf.walltime" wall m) cs ts t wall c

restored :
    (n : NodeObject) (m : Dict String String) (c : NodeCondition) (cs : List NodeCondition)
    → n.labels ≡ some m
    → n.conditions ≡ c ∷ cs
    → ◌≡◌ {A = NodeObject} (record n { labels = some m; conditions = c ∷ cs }) n
restored n m c cs h k = rw (sym h, sym k) refl

-- After at least one tick, the loop has left the label of the wall time as the environment gives it,
-- the label of the alive time with the number of the wall time less the seconds of the last tick as an
-- int64 ("0" when that is not positive), and the first condition not ready exactly when it was not
-- positive at one of the ticks; the rest of the node is as
-- it was. The node has labels and a first condition.
pub alive_time_loop_shown :
    (num : Numbers) (getenv : String → String) (n : NodeObject) (m : Dict String String)
    (c : NodeCondition) (cs : List NodeCondition) (ts : List ℕ) (t : ℕ)
    → n.labels ≡ some m
    → n.conditions ≡ c ∷ cs
    → alive_time_loop num getenv (ts ++ t ∷ []) n
      ≡ ok (record n {
        labels = some (
            insert "jiriaf.alivetime"
              (alive_label num (getenv "JIRIAF_WALLTIME") t)
              (insert "jiriaf.walltime" (getenv "JIRIAF_WALLTIME") m));
        conditions = expired (any_over num (getenv "JIRIAF_WALLTIME") (ts ++ t ∷ [])) c ∷ cs;
      })
alive_time_loop_shown num getenv n m c cs ts t h k =
    sym (ap (alive_time_loop num getenv (ts ++ t ∷ [])) (restored n m c cs h k))
    ∙ loop_shown num getenv n m c cs ts t
