-- ===== src/Store/Selection.antt =====
-- The tasks and the agents of the client, each with the selected one. `updates` stands for the
-- partial record that an action merges into a row.
use conductor_dashboard.Common.{
  ℕ, String, not, Option, none, some, List, ◌∷◌, filter, update_where, ◌==◌, if◌then◌else◌,
}
use conductor_dashboard.Task.{TaskStatus}

-- A task as the board shows it; the columns that no action reads are left out.
pub record BoardTask : Type 0 where
  pub id : ℕ
  pub title : String
  pub description : Option String
  pub status : TaskStatus
  pub assigned_to : Option String
  pub created_by : String
  pub updated_at : ℕ

pub data AgentStatus : Type 0 where
  offline idle busy error : AgentStatus

pub record BoardAgent : Type 0 where
  pub id : ℕ
  pub name : String
  pub role : String
  pub status : AgentStatus
  pub last_seen : Option ℕ
  pub last_activity : Option String
  pub updated_at : ℕ

-- A list with the item that is selected: `tasks` and `selectedTask`, `agents` and `selectedAgent`.
pub record Selection (A : Type 0) : Type 0 where
  pub items : List A
  pub selected : Option A

module _ {A : Type 0} (id_of : A → ℕ) where
  abbrev pub update_selected : ℕ → (A → A) → Option A → Option A
  update_selected id updates none = none
  update_selected id updates (some a) = some (if id_of a == id then updates a else a)

  abbrev pub delete_selected : ℕ → Option A → Option A
  delete_selected id none = none
  delete_selected id (some a) = if id_of a == id then none else some a

  abbrev pub add_item : A → Selection A → Selection A
  add_item a s = record s { items = a ∷ s.items }

  abbrev pub update_item : ℕ → (A → A) → Selection A → Selection A
  update_item id updates s = record {
    items = update_where (λ a. id_of a == id) updates s.items;
    selected = update_selected id updates s.selected;
  }

  abbrev pub delete_item : ℕ → Selection A → Selection A
  delete_item id s = record {
    items = filter (λ a. not (id_of a == id)) s.items;
    selected = delete_selected id s.selected;
  }

abbrev pub task_id : BoardTask → ℕ
task_id t = t.id

abbrev pub agent_id : BoardAgent → ℕ
agent_id a = a.id

unfoldable pub add_task : BoardTask → Selection BoardTask → Selection BoardTask
add_task = add_item task_id

unfoldable pub update_task : ℕ → (BoardTask → BoardTask) → Selection BoardTask → Selection BoardTask
update_task = update_item task_id

unfoldable pub delete_task : ℕ → Selection BoardTask → Selection BoardTask
delete_task = delete_item task_id

unfoldable pub add_agent : BoardAgent → Selection BoardAgent → Selection BoardAgent
add_agent = add_item agent_id

unfoldable pub update_agent :
    ℕ → (BoardAgent → BoardAgent) → Selection BoardAgent → Selection BoardAgent
update_agent = update_item agent_id

unfoldable pub delete_agent : ℕ → Selection BoardAgent → Selection BoardAgent
delete_agent = delete_item agent_id
