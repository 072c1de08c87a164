-- ===== src/Registry/Checks.antt =====
-- What each group of checks of normalizeServerInput in lib/servers/registry.js lets through.
use tmux_web_panel.Base.{
  ◌≡◌, inl, inr, refl, sym, subst, Bool, true, false, not, ◌&&◌, Option, none, some, Text, text,
  text_eq, nat_eq, arith,
}
use tmux_web_panel.Base.Tests.{Bool-cases, is_some}
use tmux_web_panel.Base.Int.{ℤ}
use tmux_web_panel.AgentEvents.Event.{Value}
use tmux_web_panel.Registry.Failure.{ok}
use tmux_web_panel.Registry.Strings.{
  require_clean_string, is_valid_host, ssh_config_host_re, user_re, proxy_jump_re,
}
use tmux_web_panel.Registry.Input.{
  AuthMethod, agent, password_auth, Secret, Input, Previous, Reach, Route, Login, needs_password,
  any_text, is_none_text, is_bad_password, choose_secret, normalize_reach, normalize_route,
  normalize_login, given_or,
}
use tmux_web_panel.Registry.Disk.{is_revision}
use tmux_web_panel.Registry.Clean.{require_clean_string-IsClean, require_clean_string_required}
use tmux_web_panel.Registry.Declared.{IsSecretOrNone, IsLogin, IsReach, IsRoute}

pub login_secret :
    (method : AuthMethod) (user : Option Text) (secret : Option Secret)
    → IsLogin method user secret
    → IsSecretOrNone secret
login_secret method user none h = tt
login_secret agent user (some s) h = ground (arith, h)
login_secret password_auth user (some s) h = h.1

choose_secret-IsLogin :
    (method : AuthMethod) (input : Option Value) (old : Option Secret) (revision : Text)
    (user : Option Text)
    → IsSecretOrNone old
    → is_revision revision ≡ true
    → is_bad_password input ≡ false
    → (needs_password method && is_none_text user) ≡ false
    → (needs_password method && not (is_some (choose_secret method input old revision))) ≡ false
    → IsLogin method user (choose_secret method input old revision)
unfolding choose_secret is_bad_password
choose_secret-IsLogin agent input old revision user o r b u s = refl
choose_secret-IsLogin password_auth input none revision user o r b u s =
    ground (arith, o, r, b, u, s)
choose_secret-IsLogin password_auth input (some p) revision user o r b u s =
    ground (arith, o, r, b, u, s)

module _ (is_ipv6 : Text → Bool) (to_integer : Value → Option ℤ) (revision : Text) where
  pub normalize_reach-IsReach :
      (i : Input) (old : Previous) (r : Reach)
      → normalize_reach is_ipv6 to_integer revision i old ≡ ok r
      → IsReach is_ipv6 r
  unfolding normalize_reach
  normalize_reach-IsReach i old r h =
      let config : require_clean_string (given_or i.ssh.config_host old.config_host)
            (text "ssh.configHost") 253 ssh_config_host_re false
          ≡ ok r.config_host =
        ground (arith, h) in
      let host : require_clean_string (given_or i.address.host old.host) (text "address.host") 253
            (is_valid_host is_ipv6) (is_none_text r.config_host)
          ≡ ok r.host =
        ground (arith, h, config) in
      let user : require_clean_string (given_or i.address.user old.user) (text "address.user") 32
            user_re false
          ≡ ok r.user =
        ground (arith, h, config, host) in
      (
        (require_clean_string-IsClean (text "ssh.configHost") 253 ssh_config_host_re false
            (given_or i.ssh.config_host old.config_host) r.config_host config),
        (
          (require_clean_string-IsClean (text "address.host") 253 (is_valid_host is_ipv6)
              (is_none_text r.config_host) (given_or i.address.host old.host) r.host host),
          (
            (require_clean_string-IsClean (text "address.user") 32 user_re false
                (given_or i.address.user old.user) r.user user),
            elim (Bool-cases (is_none_text r.config_host)) [
              | inl e ↦
                  let there =
                    require_clean_string_required (text "address.host") 253 (is_valid_host is_ipv6)
                      (given_or i.address.host old.host) r.host
                      (subst
                        (λ required.
                          require_clean_string (given_or i.address.host old.host)
                            (text "address.host") 253 (is_valid_host is_ipv6) required
                          ≡ ok r.host)
                        e host) in
                  ground (arith, e, there)
              | inr e ↦ ground (arith, e)
            ],
          ),
        ),
      )

  pub normalize_route-IsRoute :
      (i : Input) (old : Previous) (r : Route)
      → normalize_route is_ipv6 to_integer revision i old ≡ ok r
      → IsRoute r
  unfolding normalize_route
  normalize_route-IsRoute i old r h =
      let identity : require_clean_string (given_or i.ssh.identity_file old.identity_file)
            (text "ssh.identityFile") 512 any_text false
          ≡ ok r.identity_file =
        ground (arith, h) in
      let jump : require_clean_string (given_or i.ssh.proxy_jump old.proxy_jump)
            (text "ssh.proxyJump") 253 proxy_jump_re false
          ≡ ok r.proxy_jump =
        ground (arith, h, identity) in
      let alias : require_clean_string (given_or i.ssh.known_host_alias old.known_host_alias)
            (text "ssh.knownHostAlias") 253 ssh_config_host_re false
          ≡ ok r.known_host_alias =
        ground (arith, h, identity, jump) in
      (
        (require_clean_string-IsClean (text "ssh.identityFile") 512 any_text false
            (given_or i.ssh.identity_file old.identity_file) r.identity_file identity),
        (
          (require_clean_string-IsClean (text "ssh.proxyJump") 253 proxy_jump_re false
              (given_or i.ssh.proxy_jump old.proxy_jump) r.proxy_jump jump),
          (require_clean_string-IsClean (text "ssh.knownHostAlias") 253 ssh_config_host_re false
              (given_or i.ssh.known_host_alias old.known_host_alias) r.known_host_alias alias),
        ),
      )

  pub normalize_login-IsLogin :
      (i : Input) (old : Previous) (user : Option Text) (l : Login)
      → IsSecretOrNone old.secret
      → is_revision revision ≡ true
      → normalize_login is_ipv6 to_integer revision i old user ≡ ok l
      → IsLogin l.auth_method user l.secret
  unfolding normalize_login
  normalize_login-IsLogin i old user l o r h =
      let bad : is_bad_password i.ssh.password ≡ false = ground (arith, h) in
      let named : (needs_password l.auth_method && is_none_text user) ≡ false =
        ground (arith, h, bad) in
      let given : (needs_password l.auth_method
            && not (is_some (choose_secret l.auth_method i.ssh.password old.secret revision)))
          ≡ false =
        ground (arith, h, bad) in
      let chosen : l.secret ≡ choose_secret l.auth_method i.ssh.password old.secret revision =
        ground (arith, h, bad) in
      subst (IsLogin l.auth_method user) (sym chosen) (
        choose_secret-IsLogin l.auth_method i.ssh.password old.secret revision user o r bad named
          given)
