-- ===== src/Tests/Life.antt =====
-- The plugin from its loading on.
use f4mp.Base.{refl, true, some, List, ◌∷◌, codes}
use f4mp.Client.Plugin.{Callback, typed, call_back_all, load_plugin}
use f4mp.Client.Plugin.Fitness.{load_plugin-Fit}
use f4mp.Client.Remotes.Reached.{IsOrderly}
use f4mp.Client.Session.Fit.{Fit}
use f4mp.Tests.Console.{a_terminal}
use f4mp.Tests.Files.{no_numbers, some_file}
use f4mp.Tests.Sessions.{some_callbacks}

abbrev a_life : List Callback
a_life = typed a_terminal (some (codes "f4mp connect example.org:80")) ∷ some_callbacks

load_plugin-Fit_example :
    Fit (call_back_all a_life (load_plugin no_numbers true (some some_file))).1
    × IsOrderly (call_back_all a_life (load_plugin no_numbers true (some some_file))).1.remotes
load_plugin-Fit_example = load_plugin-Fit no_numbers true (some some_file) a_life _ refl
