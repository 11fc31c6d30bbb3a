-- ===== src/Adapters/Table.antt =====
-- The built-in registry of internal/adapters/registry.go.
use datafog.Prelude.{String, List, [], ◌∷◌}

pub record Spec : Type 0 where
  pub canonical : String
  pub aliases : List String
  pub description : String

abbrev pub default_adapters : List Spec
default_adapters =
    record {
      canonical = "vcs";
      aliases =
          "git" ∷ "gh" ∷ "gogcli" ∷ "hub" ∷ "mercurial" ∷ "hg" ∷ "svn" ∷ "bzr" ∷ "fossil" ∷ "stgit"
          ∷ [];
      description = "Version-control clients and helpers";
    }
    ∷ record {
      canonical = "shell";
      aliases =
          "sh" ∷ "bash" ∷ "zsh" ∷ "fish" ∷ "csh" ∷ "tcsh" ∷ "cmd" ∷ "powershell" ∷ "pwsh" ∷ [];
      description = "Shell and command interpreters";
    }
    ∷ record {
      canonical = "container";
      aliases = "docker" ∷ "podman" ∷ "nerdctl" ∷ "crictl" ∷ "buildah" ∷ [];
      description = "Container runtimes and tooling";
    }
    ∷ record {
      canonical = "kubernetes";
      aliases = "kubectl" ∷ "helm" ∷ "oc" ∷ "k9s" ∷ [];
      description = "Kubernetes and cluster control tooling";
    }
    ∷ record {
      canonical = "cloud_aws";
      aliases = "aws" ∷ "aws2" ∷ "sam" ∷ "cdk" ∷ "eksctl" ∷ [];
      description = "AWS CLIs and wrappers";
    }
    ∷ record {
      canonical = "cloud_gcp";
      aliases = "gcloud" ∷ "gsutil" ∷ "bq" ∷ "gke" ∷ [];
      description = "Google Cloud CLIs and wrappers";
    }
    ∷ record {
      canonical = "cloud_azure";
      aliases = "az" ∷ "azure" ∷ [];
      description = "Azure CLIs and wrappers";
    }
    ∷ record {
      canonical = "package_manager";
      aliases =
          "npm" ∷ "pnpm" ∷ "yarn" ∷ "pip" ∷ "pip3" ∷ "poetry" ∷ "cargo" ∷ "go" ∷ "mvn" ∷ "gradle"
          ∷ "ruby" ∷ "gem" ∷ [];
      description = "Package manager and language ecosystem CLIs";
    }
    ∷ record {
      canonical = "database";
      aliases = "psql" ∷ "mysql" ∷ "mariadb" ∷ "sqlite3" ∷ "mongo" ∷ "mongosh" ∷ "redis-cli" ∷ [];
      description = "Datastore and SQL/NoSQL command interfaces";
    }
    ∷ record {
      canonical = "http";
      aliases = "curl" ∷ "wget" ∷ "http" ∷ "https" ∷ [];
      description = "HTTP/API request tooling";
    }
    ∷ record {
      canonical = "claude";
      aliases = "claude" ∷ "claude-code" ∷ "claude-cli" ∷ [];
      description = "Anthropic Claude Code AI coding assistant";
    }
    ∷ record {
      canonical = "codex";
      aliases = "codex" ∷ "openai-codex" ∷ "codex-cli" ∷ [];
      description = "OpenAI Codex AI coding assistant";
    }
    ∷ []
