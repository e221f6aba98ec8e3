-- ===== src/Agreement.antt =====
-- mgmt/tribe/agreement/agreement.go: the plugins and tasks that the members of a tribe agreement
-- share. The members stand for nodes of the memberlist library and are left out.
pub mod Items
use snap.Base.{
  ℕ, zero, suc, ◌+◌, Bool, true, false, ◌&&◌, List, [], ◌∷◌, ◌++◌, Option, none, some, Text,
  text_discrete, take, drop, ◌==◌, if◌then◌else◌, ite,
}
use snap.Base.Int.{ℤ, leb_ℤ}

pub record PluginItem : Type 0 where
  pub name : Text
  pub version : ℤ
  pub type : ℕ

pub record TaskItem : Type 0 where
  pub id : Text
  pub start_on_create : Bool

pub record Agreement : Type 0 where
  pub name : Text
  pub plugins : List PluginItem
  pub tasks : List TaskItem

unfoldable pub new_agreement : Text → Agreement
new_agreement name = record { name = name; plugins = []; tasks = [] }

abbrev same_text : Text → Text → Bool
same_text s t = ite (text_discrete s t) true false

-- The names of the types are distinct, so the types themselves are compared.
unfoldable pub same_plugin : PluginItem → PluginItem → Bool
same_plugin p q =
    same_text p.name q.name
    && (leb_ℤ p.version q.version && leb_ℤ q.version p.version)
    && p.type == q.type

unfoldable pub same_task : TaskItem → TaskItem → Bool
same_task t u = same_text t.id u.id

module _ {A : Type 0} (same : A → A → Bool) where
  -- The index of the first item that counts as the same.
  unfoldable pub index_of : A → List A → Option ℕ
  index_of item [] = none
  index_of item (x ∷ xs) =
      let further : Option ℕ = elim (index_of item xs) [ none ↦ none | some n ↦ some (suc n) ] in
      if same x item then some 0 else further

  unfoldable pub add : A → List A → List A × Bool
  add item xs = elim (index_of item xs) [ some _ ↦ (xs, false) | none ↦ (xs ++ item ∷ [], true) ]

  -- The items after the removed one come to stand before those in front of it.
  unfoldable pub remove : A → List A → List A × Bool
  remove item xs = elim (index_of item xs) [
    | some idx ↦ (drop (suc idx) xs ++ take idx xs, true)
    | none ↦ (xs, false)
  ]

unfoldable pub add_plugin : Agreement → PluginItem → Agreement × Bool
add_plugin a p =
    let (plugins, added) = add same_plugin p a.plugins in (record a { plugins = plugins }, added)

unfoldable pub remove_plugin : Agreement → PluginItem → Agreement × Bool
remove_plugin a p =
    let (plugins, removed) = remove same_plugin p a.plugins in
    (record a { plugins = plugins }, removed)

unfoldable pub add_task : Agreement → TaskItem → Agreement × Bool
add_task a t = let (tasks, added) = add same_task t a.tasks in (record a { tasks = tasks }, added)

unfoldable pub remove_task : Agreement → TaskItem → Agreement × Bool
remove_task a t =
    let (tasks, removed) = remove same_task t a.tasks in (record a { tasks = tasks }, removed)
