-- ===== src/Chartgen/Helpers.antt =====
-- The texts that cmd/chartgen/helpers.go writes.
use opendatahub_ai_gateway_o.Base.{[], ◌∷◌, ◌++◌}
use opendatahub_ai_gateway_o.Text.{Text, codes, join}

-- `helpersTpl`, line by line.
unfoldable pub helpers_tpl : Text
unfolding join
helpers_tpl =
    join
      (codes "{{/*"
        ∷ codes "Chart name, truncated to 63 chars."
        ∷ codes "*/}}"
        ∷ codes "{{- define \"chart.name\" -}}"
        ∷ codes "{{- default .Chart.Name .Values.nameOverride | trunc 63 | trimSuffix \"-\" }}"
        ∷ codes "{{- end }}"
        ∷ []
        ∷ codes "{{/*"
        ∷ codes "Release fullname, truncated to 63 chars."
        ∷ codes "*/}}"
        ∷ codes "{{- define \"chart.fullname\" -}}"
        ∷ codes
            "{{- default .Release.Name .Values.fullnameOverride | trunc 63 | trimSuffix \"-\" }}"
        ∷ codes "{{- end }}"
        ∷ []
        ∷ codes "{{/*"
        ∷ codes "Standard labels."
        ∷ codes "*/}}"
        ∷ codes "{{- define \"chart.labels\" -}}"
        ∷ codes "app.kubernetes.io/name: {{ include \"chart.name\" . }}"
        ∷ codes "app.kubernetes.io/instance: {{ .Release.Name }}"
        ∷ codes "app.kubernetes.io/managed-by: {{ .Release.Service }}"
        ∷ codes "helm.sh/chart: {{ .Chart.Name }}-{{ .Chart.Version }}"
        ∷ codes "{{- end }}"
        ∷ []
        ∷ codes "{{/*"
        ∷ codes "Selector labels (subset of standard labels for matchLabels)."
        ∷ codes "*/}}"
        ∷ codes "{{- define \"chart.selectorLabels\" -}}"
        ∷ codes "app.kubernetes.io/name: {{ include \"chart.name\" . }}"
        ∷ codes "app.kubernetes.io/instance: {{ .Release.Name }}"
        ∷ codes "{{- end }}"
        ∷ []
        ∷ codes "{{/*"
        ∷ codes "Canonical image reference. Prefer fullRef when explicitly set."
        ∷ codes "*/}}"
        ∷ codes "{{- define \"chart.imageRef\" -}}"
        ∷ codes "{{- if .Values.image.fullRef -}}"
        ∷ codes "{{- .Values.image.fullRef -}}"
        ∷ codes "{{- else -}}"
        ∷ codes "{{- printf \"%s:%s\" .Values.image.repository .Values.image.tag -}}"
        ∷ codes "{{- end -}}"
        ∷ codes "{{- end }}"
        ∷ []
        ∷ [])
      (codes "\n")

-- `fmt.Sprintf(chartYAMLTemplate, name, version, version)`
unfoldable pub chart_yaml : Text → Text → Text
chart_yaml name version =
    codes "apiVersion: v2\nname: "
    ++ (name
        ++ (codes "\ndescription: ODH AI Gateway Operator Helm chart\nversion: "
            ++ (version
                ++ (codes "\nappVersion: \"" ++ (version ++ codes "\"\ntype: application\n")))))
