-- ===== src/Registry/Accepted.antt =====
-- What normalizeServerInput of lib/servers/registry.js lets through as a whole.
use tmux_web_panel.Base.{
  ℕ, ◌≡◌, inl, inr, refl, sym, subst, Bool, true, false, not, ◌||◌, Option, none, some, Text, text,
  text_eq, nat_eq, arith, ltb,
}
use tmux_web_panel.Base.Tests.{or_else}
use tmux_web_panel.Base.Int.{ℤ}
use tmux_web_panel.AgentEvents.Event.{Value}
use tmux_web_panel.Registry.Failure.{ok}
use tmux_web_panel.Registry.Strings.{require_clean_string, normalize_port}
use tmux_web_panel.Registry.Input.{
  Declaration, Input, Body, not_an_object, body, Previous, previous_of, any_text, normalize_reach,
  normalize_route, normalize_login, normalize_input, normalize_server_input, value_or,
  choose_enabled, normalize_transport,
}
use tmux_web_panel.Registry.Disk.{is_revision}
use tmux_web_panel.Registry.Clean.{
  IsClean, require_clean_string-IsClean, require_clean_string_required,
}
use tmux_web_panel.Registry.Declared.{IsSecretOrNone, reach_of, route_of, IsDeclared, Result-cases}
use tmux_web_panel.Registry.Checks.{
  login_secret, normalize_reach-IsReach, normalize_route-IsRoute, normalize_login-IsLogin,
}

module _ (is_ipv6 : Text → Bool) (to_integer : Value → Option ℤ) (revision : Text) where
  normalize_port_in_range :
      (v : Option Value) (n : ℕ)
      → normalize_port to_integer v ≡ ok n
      → (ltb n 1 || ltb 65535 n) ≡ false
  unfolding normalize_port
  normalize_port_in_range v n h = ground (arith, h)

  abbrev pub IsExisting : Option Declaration → Type 0
  IsExisting none = Unit
  IsExisting (some d) = IsDeclared is_ipv6 d

  existing_secret :
      (existing : Option Declaration)
      → IsExisting existing
      → IsSecretOrNone (previous_of existing).secret
  unfolding previous_of
  existing_secret none e = tt
  existing_secret (some d) e = login_secret d.ssh.auth_method d.address.user d.ssh.secret e.login

  name-IsClean :
      (existing : Option Declaration) (v : Option Value) (o : Option Text)
      → IsExisting existing
      → require_clean_string v (text "name") 64 any_text (not (previous_of existing).exists_already)
        ≡ ok o
      → IsClean (text "name") 64 any_text (or_else o (previous_of existing).name)
  unfolding previous_of
  name-IsClean existing v (some t) e h =
      require_clean_string-IsClean (text "name") 64 any_text
        (not (previous_of existing).exists_already) v (some t) h
  name-IsClean none v none e h =
      let absurd = require_clean_string_required (text "name") 64 any_text v none h in
      ground (arith, absurd)
  name-IsClean (some d) v none e h = e.clean_name

  -- The parts of a declaration that passes: each passed its own check.
  record Parts (i : Input) (old : Previous) (d : Declaration) : Type 0 where
    pub name : Option Text
    pub name_passed :
        require_clean_string i.name (text "name") 64 any_text (not old.exists_already) ≡ ok name
    pub name_taken : d.name ≡ or_else name old.name
    pub reach_passed : normalize_reach is_ipv6 to_integer revision i old ≡ ok (reach_of d)
    pub route_passed : normalize_route is_ipv6 to_integer revision i old ≡ ok (route_of d)
    pub login_passed :
        normalize_login is_ipv6 to_integer revision i old d.address.user
        ≡ ok (record { auth_method = d.ssh.auth_method; secret = d.ssh.secret })
    pub port_passed :
        normalize_port to_integer (value_or i.address.port old.port) ≡ ok d.address.port

  normalize_input-Parts :
      (i : Input) (old : Previous) (d : Declaration)
      → normalize_input is_ipv6 to_integer revision i old ≡ ok d
      → Parts i old d
  unfolding normalize_input
  normalize_input-Parts i old d h =
      elim (Result-cases
        (require_clean_string i.name (text "name") 64 any_text (not old.exists_already))) [
          | inr (f, p) ↦ ground (arith, h, p)
          | inl (name, p) ↦
              elim (Result-cases (normalize_reach is_ipv6 to_integer revision i old)) [
                | inr (f, q) ↦ ground (arith, h, p, q)
                | inl (reach, q) ↦
                    elim (Result-cases (normalize_route is_ipv6 to_integer revision i old)) [
                      | inr (f, r) ↦ ground (arith, h, p, q, r)
                      | inl (route, r) ↦
                          elim (Result-cases
                            (normalize_login is_ipv6 to_integer revision i old reach.user)) [
                              | inr (f, l) ↦ ground (arith, h, p, q, r, l)
                              | inl (login, l) ↦
                                  elim (Result-cases (
                                    normalize_port to_integer (value_or i.address.port old.port))) [
                                      | inr (f, n) ↦ ground (arith, h, p, q, r, l, n)
                                      | inl (port, n) ↦
                                          elim (Result-cases
                                            (choose_enabled i.enabled old.enabled)) [
                                              | inr (f, w) ↦ ground (arith, h, p, q, r, l, n, w)
                                              | inl (enabled, w) ↦
                                                  elim (Result-cases (
                                                    normalize_transport i.transport
                                                      old.transport)) [
                                                        | inr (f, x) ↦
                                                            ground (arith, h, p, q, r, l, n, w, x)
                                                        | inl (transport, x) ↦
                                                            let made : d ≡ record {
                                                            name = or_else name old.name;
                                                            address = record {
                                                            host = reach.host;
                                                            port = port;
                                                            user = reach.user;
                                                            };
                                                            ssh = record {
                                                            config_host = reach.config_host;
                                                            identity_file = route.identity_file;
                                                            proxy_jump = route.proxy_jump;
                                                            known_host_alias =
                                                            route.known_host_alias;
                                                            auth_method = login.auth_method;
                                                            secret = login.secret;
                                                            };
                                                            transport = transport;
                                                            enabled = enabled;
                                                            } =
                                                            ground
                                                            (arith, h, p, q, r, l, n, w, x) in
                                                            subst (Parts i old) (sym made) (record {
                                                            name = name;
                                                            name_passed = p;
                                                            name_taken = refl;
                                                            reach_passed = q;
                                                            route_passed = r;
                                                            login_passed = l;
                                                            port_passed = n;
                                                            })
                                                      ]
                                            ]
                                    ]
                            ]
                    ]
              ]
        ]

  -- Every declaration that passes has clean strings, a port from 1 to 65535, a host or an alias
  -- of one, and a user and a password where it logs in with a password.
  pub normalize_server_input-IsDeclared :
      (input : Body) (existing : Option Declaration) (d : Declaration)
      → IsExisting existing
      → is_revision revision ≡ true
      → normalize_server_input is_ipv6 to_integer revision input existing ≡ ok d
      → IsDeclared is_ipv6 d
  unfolding normalize_server_input
  normalize_server_input-IsDeclared not_an_object existing d e r h = ground (arith, h)
  normalize_server_input-IsDeclared (body i) existing d e r h =
      let old = previous_of existing in
      let parts = normalize_input-Parts i old d h in
      record {
        clean_name =
            subst (IsClean (text "name") 64 any_text) (sym parts.name_taken)
              (name-IsClean existing i.name parts.name e parts.name_passed);
        port_in_range =
            normalize_port_in_range (value_or i.address.port old.port) d.address.port
              parts.port_passed;
        reach =
            normalize_reach-IsReach is_ipv6 to_integer revision i old (reach_of d)
              parts.reach_passed;
        route =
            normalize_route-IsRoute is_ipv6 to_integer revision i old (route_of d)
              parts.route_passed;
        login =
            normalize_login-IsLogin is_ipv6 to_integer revision i old d.address.user
              (record { auth_method = d.ssh.auth_method; secret = d.ssh.secret })
              (existing_secret existing e) r parts.login_passed;
      }
