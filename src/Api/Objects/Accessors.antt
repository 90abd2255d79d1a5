-- ===== src/Api/Objects/Accessors.antt =====
-- The accessors of AIGateway, api/components/v1alpha1/aigateway_types.go. A pointer into the object is
-- what it reads there, and a function that writes there.
use opendatahub_ai_gateway_o.Base.{◌≡◌, refl}
use opendatahub_ai_gateway_o.Api.Objects.{PartsLib, AiGateway, status, component_release_status}

module _ (parts : PartsLib) where
  open parts use {Part, Conditions, Releases}

  -- A pointer to a field of an object.
  pub record Field (A : Type 0) : Type 0 where
    pub read : AiGateway parts → A
    pub write : A → AiGateway parts → AiGateway parts

  unfoldable pub get_status : Field (Part status)
  get_status = record {
    read = λ g. g.gateway_status.common_status;
    write = λ s g. record g { gateway_status = record g.gateway_status { common_status = s } };
  }

  unfoldable pub get_conditions : AiGateway parts → Conditions
  get_conditions g = parts.get_conditions g.gateway_status.common_status

  unfoldable pub set_conditions : Conditions → AiGateway parts → AiGateway parts
  set_conditions cs g = record g {
    gateway_status = record g.gateway_status {
      common_status = parts.set_conditions cs g.gateway_status.common_status;
    };
  }

  unfoldable pub get_release_status : Field Releases
  get_release_status = record {
    read = λ g. parts.releases g.gateway_status.component_release;
    write = λ rs g. record g {
      gateway_status = record g.gateway_status {
        component_release = parts.set_releases rs g.gateway_status.component_release;
      };
    };
  }

  unfoldable pub set_release_status : Releases → AiGateway parts → AiGateway parts
  set_release_status rs g = record g {
    gateway_status = record g.gateway_status {
      component_release = parts.set_releases rs g.gateway_status.component_release;
    };
  }

  -- The setters write what the getters read: `SetConditions` is what the framework does through the pointer
  -- of `GetStatus`, `SetReleaseStatus` is the write through that of `GetReleaseStatus`, a setter's value is
  -- read back, and neither disturbs the other or the status of the module.
  pub accessors_agree :
      (cs : Conditions) (rs : Releases) (g : AiGateway parts)
      → ((s : Part status) → parts.get_conditions (parts.set_conditions cs s) ≡ cs)
      → ((s : Part component_release_status) → parts.releases (parts.set_releases rs s) ≡ rs)
      → (set_conditions cs g ≡ get_status.write (parts.set_conditions cs (get_status.read g)) g)
        × (set_release_status rs g ≡ get_release_status.write rs g)
        × (get_conditions (set_release_status rs (set_conditions cs g)) ≡ cs)
        × (get_release_status.read (set_conditions cs (set_release_status rs g)) ≡ rs)
        × ((set_conditions cs (set_release_status rs g)).gateway_status.module_status
            ≡ g.gateway_status.module_status)
        × ((set_conditions cs (set_release_status rs g)).spec ≡ g.spec)
  unfolding get_status get_conditions set_conditions get_release_status set_release_status
  accessors_agree cs rs g hc hr = (
    refl,
    refl,
    hc g.gateway_status.common_status,
    hr g.gateway_status.component_release,
    refl,
    refl,
  )
