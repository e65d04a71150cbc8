-- ===== src/Provision/Plan.antt =====
-- `buildBootstrapPlan` and `buildDecommissionPlan`. `artifact_dir` is the path of the tenant's artifacts,
-- and `home_dir` that of its user.
use Prim.Native.String.{◌++◌}
use conductor_dashboard.Common.{
  ℕ, String, Bool, true, false, not, ◌&&◌, Option, none, some, List, [], ◌∷◌, if◌then◌else◌,
}
use conductor_dashboard.Common as C
use conductor_dashboard.Provision.{Step}

pub record Paths : Type 0 where
  pub slug : String
  pub linux_user : String
  pub openclaw_home : String
  pub workspace_root : String

-- A step as root with a timeout.
abbrev pub root_step : String → String → List String → ℕ → Step
root_step key title command timeout = record {
  key = key;
  title = title;
  command = command;
  requires_root = true;
  timeout_ms = some timeout;
}

-- install -d for the tenant's user
abbrev pub install_dir : String → String → List String
install_dir user dir =
    "/usr/bin/install" ∷ "-d" ∷ "-m" ∷ "0750" ∷ "-o" ∷ user ∷ "-g" ∷ user ∷ dir ∷ []

unfoldable pub build_bootstrap_plan : Paths → String → String → String → String → List Step
build_bootstrap_plan t home_dir artifact_dir openclaw_template systemd_template =
    root_step "create-linux-user" ("Create linux user " ++ t.linux_user)
      ("/usr/sbin/useradd" ∷ "-m" ∷ "-s" ∷ "/bin/bash" ∷ t.linux_user ∷ []) 10000
    ∷ root_step "create-openclaw-state" ("Create OpenClaw state directory " ++ t.openclaw_home)
        (install_dir t.linux_user t.openclaw_home) 10000
    ∷ root_step "create-workspace-root" ("Create workspace root " ++ t.workspace_root)
        (install_dir t.linux_user t.workspace_root) 10000
    ∷ root_step "seed-openclaw-template" "Seed base OpenClaw config scaffold"
        ("/usr/bin/cp" ∷ "-n" ∷ openclaw_template ∷ (t.openclaw_home ++ "/openclaw.json") ∷ [])
        12000
    ∷ root_step "set-owner-home" ("Ensure ownership of " ++ home_dir)
        ("/usr/bin/chown" ∷ "-R" ∷ (t.linux_user ++ (":" ++ t.linux_user)) ∷ home_dir ∷ []) 20000
    ∷ root_step "ensure-openclaw-tenants-dir" "Ensure /etc/openclaw-tenants exists"
        (install_dir "root" "/etc/openclaw-tenants") 5000
    ∷ root_step "install-gateway-systemd-template" "Install openclaw-gateway@.service template"
        ("/usr/bin/cp" ∷ "-n" ∷ systemd_template ∷ "/etc/systemd/system/openclaw-gateway@.service"
          ∷ [])
        5000
    ∷ root_step "install-tenant-gateway-env" "Install tenant gateway env file"
        ("/usr/bin/cp"
          ∷ "-f"
          ∷ (artifact_dir ++ "/openclaw-gateway.env")
          ∷ ("/etc/openclaw-tenants/" ++ (t.linux_user ++ ".env"))
          ∷ [])
        5000
    ∷ root_step "systemd-daemon-reload" "Reload systemd units"
        ("/usr/bin/systemctl" ∷ "daemon-reload" ∷ []) 10000
    ∷ root_step "enable-start-gateway"
        ("Enable/start openclaw-gateway@" ++ (t.linux_user ++ ".service"))
        ("/usr/bin/systemctl"
          ∷ "enable"
          ∷ "--now"
          ∷ ("openclaw-gateway@" ++ (t.linux_user ++ ".service"))
          ∷ [])
        5000
    ∷ []

abbrev pub stop_steps : Paths → List Step
stop_steps t =
    root_step "disable-stop-gateway"
      ("Disable/stop openclaw-gateway@" ++ (t.linux_user ++ ".service"))
      ("/usr/bin/systemctl"
        ∷ "disable"
        ∷ "--now"
        ∷ ("openclaw-gateway@" ++ (t.linux_user ++ ".service"))
        ∷ [])
      10000
    ∷ root_step "remove-tenant-gateway-env"
        ("Remove /etc/openclaw-tenants/" ++ (t.linux_user ++ ".env"))
        ("/usr/bin/rm" ∷ "-f" ∷ ("/etc/openclaw-tenants/" ++ (t.linux_user ++ ".env")) ∷ []) 5000
    ∷ []

abbrev pub remove_dir : String → String → Step
remove_dir key dir = root_step key ("Remove " ++ dir) ("/usr/bin/rm" ∷ "-rf" ∷ dir ∷ []) 10000

abbrev pub state_steps : Paths → List Step
state_steps t =
    remove_dir "remove-openclaw-state-dir" t.openclaw_home
    ∷ remove_dir "remove-workspace-dir" t.workspace_root
    ∷ []

abbrev pub user_steps : Paths → List Step
user_steps t =
    root_step "remove-linux-user" ("Remove linux user " ++ t.linux_user)
      ("/usr/sbin/userdel" ∷ "-r" ∷ t.linux_user ∷ []) 15000
    ∷ []

-- Removing the user removes the directories with it.
unfoldable pub build_decommission_plan : Paths → Bool → Bool → List Step
build_decommission_plan t remove_linux_user remove_state_dirs = C.◌++◌ (stop_steps t) (
    C.◌++◌ (if remove_state_dirs && not remove_linux_user then state_steps t else [])
      (if remove_linux_user then user_steps t else []))
