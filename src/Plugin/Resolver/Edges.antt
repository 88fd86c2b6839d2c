-- ===== src/Plugin/Resolver/Edges.antt =====
-- The edges of the graph that the resolver builds.
use preflight.Base.{
  String, Bool, Bool-cases, Has, Has-append_left, Has-append_right, List, [], arith, eq_iff, false,
  if◌then◌else◌, inl, inr, refl, str_eq, subst, sym, true, ◌++◌, ◌∷◌, ◌≡◌,
}
use preflight.GoMap.{has, put}
use preflight.Plugin.Order.{Graph, neighbors}
use preflight.GoMap.Laws.{lookup-put}
use preflight.Plugin.Order.Fuel.{neighbors-none}
use preflight.Plugin.Resolver.{Work, Dependency, add_edge, add_node}

-- No edge is lost.
abbrev pub Keeps : Work → Work → Type 0
Keeps w v = (p n : String) → Has n (neighbors w.graph p) → Has n (neighbors v.graph p)

abbrev pub IsClean : Work → Type 0
IsClean w = (w.missing ≡ []) × (w.conflicts ≡ [])

abbrev pub names : List Dependency → List String
names [] = []
names (d ∷ ds) = d.name ∷ names ds

neighbors-put :
    (p q : String) (ns : List String) (g : Graph)
    → neighbors (put p ns g) q ≡ (if str_eq p q then ns else neighbors g q)
neighbors-put p q ns g = ground (arith, lookup-put q p ns g)

pub add_edge-keeps :
    (p n q m : String) (g : Graph) → Has m (neighbors g q) → Has m (neighbors (add_edge p n g) q)
add_edge-keeps p n q m g h = elim (Bool-cases (str_eq p q)) [
  | inl same ↦
      rw (neighbors-put p q (neighbors g p ++ n ∷ []) g, same)
        (Has-append_left m (neighbors g p) (n ∷ [])
          (subst (λ k. Has m (neighbors g k)) (sym ((eq_iff p q).0 same)) h))
  | inr ne ↦ rw (neighbors-put p q (neighbors g p ++ n ∷ []) g, ne) h
]

pub add_edge-new : (p n : String) (g : Graph) → Has n (neighbors (add_edge p n g) p)
add_edge-new p n g =
    rw (neighbors-put p p (neighbors g p ++ n ∷ []) g, (eq_iff p p).1 refl)
      (Has-append_right n (neighbors g p) (n ∷ []) (inl refl))

pub neighbors-add_node :
    (node q : String) (g : Graph) → neighbors (add_node node g) q ≡ neighbors g q
neighbors-add_node node q g = elim (Bool-cases (has node g)) [
  | inl there ↦ rw there refl
  | inr absent ↦
      rw (absent, neighbors-put node q [] g)
        (elim (Bool-cases (str_eq node q)) [
          | inl same ↦ rw same (
              sym
                (neighbors-none g q (subst (λ k. has k g ≡ false) ((eq_iff node q).0 same) absent)))
          | inr ne ↦ rw ne refl
        ])
]

pub if_lem : (P : Work → Type 0) (b : Bool) (v u : Work) → P v → P u → P (if b then v else u)
if_lem P true v u h k = h
if_lem P false v u h k = k

pub snoc_lem : {A : Type 0} (xs : List A) (x : A) → ¬ (xs ++ x ∷ [] ≡ [])
snoc_lem [] x e = cc
snoc_lem (y ∷ xs) x e = cc
